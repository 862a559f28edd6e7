-- ===== src/Wire/Utf8.antt =====
-- Truncation of UTF-8 text in src/protocol/binary_writer.cpp, and the code-point count of
-- src/core/network_variable_manager.cpp. A `std::string` is the list of its bytes.
pub mod Truncation
use styly_net_sync_godot.Base.{
  ℕ, zero, suc, ◌+◌, ◌-◌, ◌≤◌, ◌<◌, ◌≡◌, refl, sym, ap, ◌∙◌, ◌⊎◌, inl, inr, Bool, true, false, not,
  ◌&&◌, Option, none, some, List, [], ◌∷◌, ◌++◌, arith, bit_and, ltb, leb, ◌==◌, if◌then◌else◌,
  length, get_or, take, drop, Bool-cases, take-append-drop, length-take, take_all, leb→le, leb→lt,
}

unfoldable pub is_continuation : ℕ → Bool
is_continuation byte = bit_and byte 0xC0 == 0x80

-- The loop walks back to the start of the character that straddles the cut.
unfoldable pub back_up : List ℕ → ℕ → ℕ
back_up value zero = 0
back_up value (suc cut) =
    if is_continuation (get_or value (suc cut) 0) then back_up value cut else suc cut

unfoldable pub truncate_utf8_bytes : List ℕ → ℕ → List ℕ
truncate_utf8_bytes value max_bytes =
    if leb (length value) max_bytes then value else take (back_up value max_bytes) value

-- The scan of `truncate_utf8_code_points` from `index` on; an index is where it returns early.
unfoldable pub cut_index : ℕ → List ℕ → ℕ → ℕ → Option ℕ
cut_index max_code_points [] code_points index = none
cut_index max_code_points (b ∷ bs) code_points index =
    let rest =
      cut_index max_code_points bs (if is_continuation b then code_points else suc code_points)
        (suc index) in
    if not (is_continuation b) && code_points == max_code_points then some index else rest

abbrev pub cut_at : List ℕ → Option ℕ → List ℕ
cut_at value none = value
cut_at value (some index) = take index value

unfoldable pub truncate_utf8_code_points : List ℕ → ℕ → List ℕ
truncate_utf8_code_points value max_code_points = cut_at value (cut_index max_code_points value 0 0)

unfoldable pub code_point_length : List ℕ → ℕ
code_point_length [] = 0
code_point_length (b ∷ bs) =
    if is_continuation b then code_point_length bs else suc (code_point_length bs)

-- Facts about the walk back.
pub back_up-le : (value : List ℕ) (cut : ℕ) → back_up value cut ≤ cut
unfolding back_up
back_up-le value zero = omega arith
back_up-le value (suc cut) = ground (arith, back_up-le value cut)

pub back_up_boundary :
    (value : List ℕ) (cut : ℕ)
    → (back_up value cut ≡ 0) ⊎ (is_continuation (get_or value (back_up value cut) 0) ≡ false)
unfolding back_up
back_up_boundary value zero = inl refl
back_up_boundary value (suc cut) = elim (Bool-cases (is_continuation (get_or value (suc cut) 0))) [
  | inl e ↦ rw e (back_up_boundary value cut)
  | inr e ↦ rw e (inr e)
]

pub back_up-longest :
    (value : List ℕ) (cut i : ℕ)
    → i ≤ cut
    → is_continuation (get_or value i 0) ≡ false
    → i ≤ back_up value cut
unfolding back_up
back_up-longest value zero i h e = h
back_up-longest value (suc cut) zero h e = omega arith
back_up-longest value (suc cut) (suc i) h e =
    elim (Bool-cases (is_continuation (get_or value (suc cut) 0))) [
      | inl c ↦ rw c (elim (Bool-cases (i == cut)) [
        | inl same ↦ absurd (ground (arith, e, c, same))
        | inr differs ↦ back_up-longest value cut (suc i) (ground arith) e
      ])
      | inr c ↦ rw c h
    ]

-- Facts about the scan.
pub cut_index-bounds :
    (n : ℕ) (bs : List ℕ) (count index k : ℕ)
    → cut_index n bs count index ≡ some k
    → (index ≤ k) × (k ≤ index + length bs)
unfolding cut_index
cut_index-bounds n [] count index k h = cc
cut_index-bounds n (b ∷ bs) count index k h =
    ground
      (arith, cut_index-bounds n bs (if is_continuation b then count else suc count) (suc index) k)

-- The scan returns early exactly when the text has more code points than allowed.
pub cut_index-none :
    (n : ℕ) (bs : List ℕ) (count index : ℕ)
    → count + code_point_length bs ≤ n
    → cut_index n bs count index ≡ none
unfolding cut_index code_point_length
cut_index-none n [] count index h = refl
cut_index-none n (b ∷ bs) count index h =
    ground (arith, cut_index-none n bs (if is_continuation b then count else suc count) (suc index))

take-zero : (i : ℕ) (bs : List ℕ) → take (i - i) bs ≡ []
take-zero i bs = rw (z i)
  where
    z : (i : ℕ) → i - i ≡ 0
    z i = omega arith

take-suc_sub :
    (index k b : ℕ) (bs : List ℕ)
    → suc index ≤ k
    → take (k - index) (b ∷ bs) ≡ b ∷ take (k - suc index) bs
take-suc_sub index k b bs h = rw (z index k h)
  where
    z : (index k : ℕ) → suc index ≤ k → k - index ≡ suc (k - suc index)
    z index k h = omega arith

-- Where it does return early, what stands before the index has exactly the allowed number.
pub cut_index-some :
    (n : ℕ) (bs : List ℕ) (count index k : ℕ)
    → count ≤ n
    → cut_index n bs count index ≡ some k
    → count + code_point_length (take (k - index) bs) ≡ n
unfolding cut_index code_point_length
cut_index-some n [] count index k c h = cc
cut_index-some n (b ∷ bs) count index k c h =
    elim (Bool-cases (not (is_continuation b) && count == n)) [
      | inl stops ↦ ground (arith, take-zero index (b ∷ bs), stops, h)
      | inr goes ↦ ground (
        arith,
        goes,
        take-suc_sub index k b bs,
        cut_index-bounds n bs (if is_continuation b then count else suc count) (suc index) k,
        cut_index-some n bs (if is_continuation b then count else suc count) (suc index) k,
      )
    ]

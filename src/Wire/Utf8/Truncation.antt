-- ===== src/Wire/Utf8/Truncation.antt =====
-- What the two truncations of src/protocol/binary_writer.cpp keep of a text.
use styly_net_sync_godot.Base.{
  ℕ, zero, suc, ◌+◌, ◌-◌, ◌≤◌, ◌<◌, ◌≡◌, refl, sym, ap, ◌∙◌, ◌⊎◌, inl, inr, false, none, some, List,
  [], ◌∷◌, ◌++◌, arith, leb, if◌then◌else◌, length, get_or, take, drop, Bool-cases, Option-cases,
  append-nil, take-append-drop, length-take, take-append, leb→le, leb→lt, length-append,
}
use styly_net_sync_godot.Wire.Utf8.{
  is_continuation, back_up, truncate_utf8_bytes, cut_index, truncate_utf8_code_points,
  code_point_length, back_up-le, back_up_boundary, back_up-longest, cut_index-none, cut_index-some,
}

-- A text that fits is kept whole.
pub truncate_utf8_bytes_short :
    (value : List ℕ) (n : ℕ) → length value ≤ n → truncate_utf8_bytes value n ≡ value
unfolding truncate_utf8_bytes
truncate_utf8_bytes_short value n h = ground arith

pub length-truncate_utf8_bytes : (value : List ℕ) (n : ℕ) → length (truncate_utf8_bytes value n) ≤ n
unfolding truncate_utf8_bytes
length-truncate_utf8_bytes value n = elim (Bool-cases (leb (length value) n)) [
  | inl e ↦ rw e (leb→le _ _ e)
  | inr e ↦ rw e (omega (arith, length-take (back_up value n) value, back_up-le value n))
]

-- What is cut off.
pub truncated_bytes : List ℕ → ℕ → List ℕ
truncated_bytes value n = if leb (length value) n then [] else drop (back_up value n) value

pub truncate_utf8_bytes-append :
    (value : List ℕ) (n : ℕ) → truncate_utf8_bytes value n ++ truncated_bytes value n ≡ value
unfolding truncate_utf8_bytes truncated_bytes
truncate_utf8_bytes-append value n = elim (Bool-cases (leb (length value) n)) [
  | inl e ↦ rw e (append-nil value)
  | inr e ↦ rw e (take-append-drop (back_up value n) value)
]

pub take-truncate_utf8_bytes :
    (value : List ℕ) (n : ℕ)
    → take (length (truncate_utf8_bytes value n)) value ≡ truncate_utf8_bytes value n
take-truncate_utf8_bytes value n =
    ap (take (length (truncate_utf8_bytes value n))) (sym (truncate_utf8_bytes-append value n))
    ∙ take-append (truncate_utf8_bytes value n) (truncated_bytes value n)

get_or-append : (xs ys : List ℕ) → get_or (xs ++ ys) (length xs) 0 ≡ get_or ys 0 0
get_or-append [] ys = refl
get_or-append (x ∷ xs) ys = get_or-append xs ys

head_back_up :
    (value : List ℕ) (i : ℕ) → i ≤ length value → get_or (drop i value) 0 0 ≡ get_or value i 0
head_back_up value zero h = refl
head_back_up [] (suc i) h = refl
head_back_up (x ∷ value) (suc i) h = head_back_up value i (omega arith)

truncated_boundary :
    (value : List ℕ) (n : ℕ)
    → (truncated_bytes value n ≡ [])
      ⊎ (truncate_utf8_bytes value n ≡ [])
      ⊎ (is_continuation (get_or (truncated_bytes value n) 0 0) ≡ false)
unfolding truncate_utf8_bytes truncated_bytes
truncated_boundary value n = elim (Bool-cases (leb (length value) n)) [
  | inl e ↦ rw e (inl refl)
  | inr e ↦ rw e (elim (back_up_boundary value n) [
    | inl z ↦ inr (inl (rw z))
    | inr c ↦ inr (
        inr (
          rw
            (head_back_up value (back_up value n) (omega (arith, back_up-le value n, leb→lt _ _ e)))
            c))
  ])
]

-- Truncation to `n` bytes keeps a prefix of at most `n` bytes: the text is the result and a rest.
-- The rest is empty, or the result is, or the rest begins with a byte that starts a character.
pub truncate_utf8_bytes_cut :
    (value : List ℕ) (n : ℕ)
    → (truncate_utf8_bytes value n ++ truncated_bytes value n ≡ value)
      × (length (truncate_utf8_bytes value n) ≤ n)
      × ((truncated_bytes value n ≡ [])
          ⊎ (truncate_utf8_bytes value n ≡ [])
          ⊎ (is_continuation (get_or (truncated_bytes value n) 0 0) ≡ false))
truncate_utf8_bytes_cut value n = (
  truncate_utf8_bytes-append value n,
  length-truncate_utf8_bytes value n,
  truncated_boundary value n,
)

-- No prefix of at most `n` bytes that ends before a byte that starts a character is longer than
-- what truncation to `n` bytes keeps.
pub truncate_utf8_bytes_longest :
    (front back : List ℕ) (b n : ℕ)
    → length front ≤ n
    → is_continuation b ≡ false
    → length front ≤ length (truncate_utf8_bytes (front ++ (b ∷ back)) n)
unfolding truncate_utf8_bytes
truncate_utf8_bytes_longest front back b n h c =
    elim (Bool-cases (leb (length (front ++ (b ∷ back))) n)) [
      | inl e ↦ rw e (omega (arith, length-append front (b ∷ back)))
      | inr e ↦ rw e (
          omega (
            arith,
            length-take (back_up (front ++ (b ∷ back)) n) (front ++ (b ∷ back)),
            back_up-longest (front ++ (b ∷ back)) n (length front) h
                (rw (get_or-append front (b ∷ back)) c),
            length-append front (b ∷ back),
          ))
    ]

-- A text of at most `n` code points is kept whole by truncation to `n` code points.
pub truncate_utf8_code_points_short :
    (value : List ℕ) (n : ℕ)
    → code_point_length value ≤ n
    → truncate_utf8_code_points value n ≡ value
unfolding truncate_utf8_code_points
truncate_utf8_code_points_short value n h = rw (cut_index-none n value 0 0 (omega arith))

-- The scan does not end at the end of a text that is longer than allowed.
cut_index-reaches :
    (n : ℕ) (bs : List ℕ) (count index : ℕ)
    → count ≤ n
    → cut_index n bs count index ≡ none
    → count + code_point_length bs ≤ n
unfolding cut_index code_point_length
cut_index-reaches n [] count index c h = omega arith
cut_index-reaches n (b ∷ bs) count index c h =
    ground
      (arith, cut_index-reaches n bs (if is_continuation b then count else suc count) (suc index))

cut_count :
    (value : List ℕ) (n k : ℕ)
    → cut_index n value 0 0 ≡ some k
    → code_point_length (take k value) ≡ n
cut_count value n k e = omega (arith, rw (z k) at (cut_index-some n value 0 0 k (omega arith) e))
  where
    z : (k : ℕ) → k - 0 ≡ k
    z k = omega arith

take_prefix : (value : List ℕ) (k : ℕ) → (rest : List ℕ) × (take k value ++ rest ≡ value)
take_prefix value k = (drop k value, take-append-drop k value)

-- Of a text of more than `n` code points truncation keeps a prefix with exactly `n` of them.
pub truncate_utf8_code_points_long :
    (value : List ℕ) (n : ℕ)
    → n < code_point_length value
    → (code_point_length (truncate_utf8_code_points value n) ≡ n)
      × ((rest : List ℕ) × (truncate_utf8_code_points value n ++ rest ≡ value))
unfolding truncate_utf8_code_points
truncate_utf8_code_points_long value n h = elim (Option-cases (cut_index n value 0 0)) [
  | inl e ↦ absurd (omega (arith, cut_index-reaches n value 0 0 (omega arith) e))
  | inr (k, e) ↦ rw e (cut_count value n k e, take_prefix value k)
]

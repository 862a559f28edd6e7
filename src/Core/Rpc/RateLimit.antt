-- ===== src/Core/Rpc/RateLimit.antt =====
-- The sliding window of try_consume_quota in src/core/rpc_manager.cpp, over a run of calls.
use styly_net_sync_godot.Base.{
  ℕ, zero, suc, ◌+◌, ◌<◌, ◌≡◌, refl, sym, ap, ◌∙◌, subst, arith, false, List, [], ◌∷◌, ◌++◌,
  append-nil, append_assoc, ltb, leb, ◌==◌, if◌then◌else◌, length, get_or, All, length-append, inl,
  inr, ltb→lt, ltb→le, leb→lt, Bool-cases,
}
use styly_net_sync_godot.Core.Rpc.Manager.{drop_old, try_consume_quota}

-- The times at which a run of calls is granted. Each call comes some time after the one before.
unfoldable pub granted_times : (rpc_limit window now : ℕ) → List ℕ → List ℕ → List ℕ
granted_times rpc_limit window now [] hits = []
granted_times rpc_limit window now (wait ∷ waits) hits =
    let (granted, hits') = try_consume_quota (now + wait) rpc_limit window hits in
    let rest = granted_times rpc_limit window (now + wait) waits hits' in
    if granted then (now + wait) ∷ rest else rest

-- Of any `rpc_limit + 1` consecutive times the first and the last are more than a window apart.
abbrev pub Spaced : (rpc_limit window : ℕ) → List ℕ → Type 0
Spaced rpc_limit window times =
    (i : ℕ)
    → i + rpc_limit < length times
    → get_or times i 0 + window < get_or times (i + rpc_limit) 0

get_or-left : (xs ys : List ℕ) (i : ℕ) → i < length xs → get_or (xs ++ ys) i 0 ≡ get_or xs i 0
get_or-left [] ys i h = absurd (omega arith)
get_or-left (x ∷ xs) ys zero h = refl
get_or-left (x ∷ xs) ys (suc i) h = get_or-left xs ys i (omega arith)

get_or-right : (xs : List ℕ) (y : ℕ) (i : ℕ) → i ≡ length xs → get_or (xs ++ (y ∷ [])) i 0 ≡ y
get_or-right [] y zero h = refl
get_or-right [] y (suc i) h = absurd (omega arith)
get_or-right (x ∷ xs) y zero h = absurd (omega arith)
get_or-right (x ∷ xs) y (suc i) h = get_or-right xs y i (omega arith)

-- The times that a window behind `now` has left.
abbrev Left : (window now : ℕ) → List ℕ → Type 0
Left window now times = All (λ t. t + window < now) times

Left-get_or :
    (window now : ℕ) (times : List ℕ)
    → Left window now times
    → (i : ℕ) → i < length times
    → get_or times i 0 + window < now
Left-get_or window now [] h i below = absurd (omega arith)
Left-get_or window now (t ∷ times) (left, h) zero below = left
Left-get_or window now (t ∷ times) (left, h) (suc i) below =
    Left-get_or window now times h i (omega arith)

Left-append :
    (window now : ℕ) (xs : List ℕ) (y : ℕ)
    → Left window now xs
    → y + window < now
    → Left window now (xs ++ (y ∷ []))
Left-append window now [] y h last = (last, tt)
Left-append window now (x ∷ xs) y (left, h) last = (left, Left-append window now xs y h last)

Left-later :
    (window now wait : ℕ) (times : List ℕ) → Left window now times → Left window (now + wait) times
Left-later window now wait [] h = tt
Left-later window now wait (t ∷ times) (left, h) = (omega arith, Left-later window now wait times h)

-- All the times granted so far: those that the queue has dropped, then those it still holds.
abbrev Split : (window now : ℕ) → List ℕ → List ℕ → Type 0
Split window now times hits = (gone : List ℕ) × (times ≡ gone ++ hits) × Left window now gone

drop_old-Split :
    (window now : ℕ) (times hits : List ℕ)
    → Split window now times hits
    → Split window now times (drop_old now window hits)
unfolding drop_old
drop_old-Split window now times [] h = h
drop_old-Split window now times (hit ∷ hits) (gone, parts, left) =
    elim (Bool-cases (ltb (hit + window) now)) [
      | inl old ↦ subst (Split window now times) (sym (rw old)) (
          drop_old-Split window now times hits (
            gone ++ (hit ∷ []),
            parts ∙ sym (append_assoc gone (hit ∷ []) hits),
            Left-append window now gone hit left (ltb→lt _ _ old),
          ))
      | inr recent ↦ subst (Split window now times) (sym (rw recent)) (gone, parts, left)
    ]

Split-later :
    (window now wait : ℕ) (times hits : List ℕ)
    → Split window now times hits
    → Split window (now + wait) times hits
Split-later window now wait times hits (gone, parts, left) =
    (gone, parts, Left-later window now wait gone left)

Left-before :
    (window now i : ℕ) (gone hits : List ℕ)
    → Left window now gone
    → i + length hits < length (gone ++ hits)
    → get_or (gone ++ hits) i 0 + window < now
Left-before window now i gone hits left below =
    let inside : i < length gone = omega (arith, length-append gone hits) in
    rw (get_or-left gone hits i inside) (Left-get_or window now gone left i inside)

length-snoc : (xs : List ℕ) (x : ℕ) → length (xs ++ (x ∷ [])) ≡ suc (length xs)
length-snoc xs x = omega (arith, length-append xs (x ∷ []))

Split-snoc :
    (window now : ℕ) (times hits : List ℕ)
    → Split window now times hits
    → Split window now (times ++ (now ∷ [])) (hits ++ (now ∷ []))
Split-snoc window now times hits (gone, parts, left) =
    (gone, ap (λ ts. ts ++ (now ∷ [])) parts ∙ append_assoc gone hits (now ∷ []), left)

-- A time granted while fewer than `rpc_limit` are held keeps the times spaced.
Spaced-grant :
    (rpc_limit window now : ℕ) (times hits : List ℕ)
    → Spaced rpc_limit window times
    → Split window now times hits
    → length hits < rpc_limit
    → Spaced rpc_limit window (times ++ (now ∷ []))
Spaced-grant rpc_limit window now times hits spaced (gone, parts, left) few i below =
    let size = length-snoc times now in
    let inside : i < length times = omega (arith, size) in
    rw (get_or-left times (now ∷ []) i inside)
      (elim (Bool-cases (ltb (i + rpc_limit) (length times))) [
        | inl within ↦
            rw (get_or-left times (now ∷ []) (i + rpc_limit) (ltb→lt _ _ within))
              (spaced i (ltb→lt _ _ within))
        | inr at_end ↦
            let last : i + rpc_limit ≡ length times = omega (arith, size, ltb→le _ _ at_end) in
            rw (get_or-right times now (i + rpc_limit) last) (
              subst (λ ts. get_or ts i 0 + window < now) (sym parts)
                (Left-before window now i gone hits left
                  (subst (λ ts. i + length hits < length ts) parts (omega (arith, last)))))
      ])

granted_times-after :
    (rpc_limit window now : ℕ) (waits hits times : List ℕ)
    → 0 < rpc_limit
    → Spaced rpc_limit window times
    → Split window now times hits
    → Spaced rpc_limit window (times ++ granted_times rpc_limit window now waits hits)
unfolding granted_times try_consume_quota
granted_times-after rpc_limit window now [] hits times some_limit spaced split =
    rw (append-nil times) spaced
granted_times-after rpc_limit window now (wait ∷ waits) hits times some_limit spaced split =
    let at = now + wait in
    let recent = drop_old at window hits in
    let held : Split window at times recent =
      drop_old-Split window at times hits (Split-later window now wait times hits split) in
    let limited : (rpc_limit == 0) ≡ false = ground arith in
    elim (Bool-cases (leb rpc_limit (length recent))) [
      | inl full ↦
          rw (limited, full)
            (granted_times-after rpc_limit window at waits recent times some_limit spaced held)
      | inr free ↦
          rw (limited, free, ← append_assoc times (at ∷ []) _)
            (granted_times-after rpc_limit window at waits (recent ++ (at ∷ []))
              (times ++ (at ∷ [])) some_limit
              (Spaced-grant rpc_limit window at times recent spaced held (leb→lt _ _ free))
              (Split-snoc window at times recent held))
    ]

-- Of the times at which a run of calls is granted, whatever the waits between the calls, any
-- `rpc_limit + 1` consecutive ones span more than a window, if the limit is not 0 (which is no
-- limit).
pub granted_times-Spaced :
    (rpc_limit window now : ℕ) (waits : List ℕ)
    → 0 < rpc_limit
    → Spaced rpc_limit window (granted_times rpc_limit window now waits [])
granted_times-Spaced rpc_limit window now waits some_limit =
    granted_times-after rpc_limit window now waits [] [] some_limit
      (λ i below. absurd (omega arith)) ([], refl, tt)

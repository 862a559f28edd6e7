-- ===== src/Core/Variables/Lane/Wire.antt =====
-- What a flush of src/core/network_variable_manager.cpp puts on the wire.
use styly_net_sync_godot.Base.{
  ℕ, suc, ◌≤◌, length, ltb, arith, ◌≡◌, ◌⊎◌, refl, sym, ap, ◌∙◌, subst, inl, inr, Bool, true, false,
  Option, none, some, List, [], ◌∷◌, ◌++◌, Bool-cases, All, append-nil, append_assoc,
}
use mathlib.Core.Option.{some-injective}
use styly_net_sync_godot.Base.Keys.{Key}
use styly_net_sync_godot.Base.Dict.{Dict, lookup, has, lookup-insert, lookup-has, has-lookup}
use styly_net_sync_godot.Core.Link.{
  Link, transmit, TakesAll, transmit-TakesAll, transmit-answer, transmit-sent,
}
use styly_net_sync_godot.Core.Variables.Lane.{
  Lane, holds, forget_pending, sent_result, try_send_now, flushed, flush_one, flush_list,
  flush_pending, to_flush, keep_found,
}
use styly_net_sync_godot.Core.Variables.Lane.Paired.{Paired}
use styly_net_sync_godot.Core.Variables.Lane.Delivery.{
  holds→eq, Agrees, to_flush-Agrees, to_flush-has, AllDue,
}

-- A message is among others.
abbrev pub Among : List ℕ → List (List ℕ) → Type 0
Among payload [] = ⊥
Among payload (other ∷ rest) = (payload ≡ other) ⊎ Among payload rest

Among-append_right :
    (payload : List ℕ) (before after : List (List ℕ))
    → Among payload after
    → Among payload (before ++ after)
Among-append_right payload [] after h = h
Among-append_right payload (x ∷ xs) after h = inr (Among-append_right payload xs after h)

Among-append_left :
    (payload : List ℕ) (before after : List (List ℕ))
    → Among payload before
    → Among payload (before ++ after)
Among-append_left payload [] after h = absurd h
Among-append_left payload (x ∷ xs) after (inl e) = inl e
Among-append_left payload (x ∷ xs) after (inr h) = inr (Among-append_left payload xs after h)

pub All-append {κ} :
    (P : List ℕ → Type κ) (before after : List (List ℕ))
    → All P before
    → All P after
    → All P (before ++ after)
All-append P [] after all more = more
All-append P (x ∷ xs) after (p, all) more = (p, All-append P xs after all more)

module _ {ℓ} {K : Type ℓ} ⦃e : Key K⦄ (serialize : K → List ℕ → List ℕ) where
  -- The messages are those of values that wait.
  abbrev pub AreMessages : Dict K (List ℕ) → List (List ℕ) → Type ℓ
  AreMessages pending =
      All (λ payload.
        (k : K) × (v : List ℕ) × (lookup k pending ≡ some v) × (payload ≡ serialize k v))

  -- What one round sends: the message, or nothing where the value was sent last.
  record OneSends (key : K) (value : List ℕ) (lane : Lane K) (link : Link)
      (r : Bool × Lane K × Link) : Type ℓ where
    sends :
        ((lookup key lane.last_sent ≡ some value) × (r.2.sent ≡ link.sent))
        ⊎ (r.2.sent ≡ link.sent ++ (serialize key value ∷ []))
    others : (k : K) → e.beq key k ≡ false → lookup k r.1.last_sent ≡ lookup k lane.last_sent
    takes : TakesAll r.2.answer

  flushed-OneSends :
      (now : ℕ) (key : K) (value : List ℕ) (lane : Lane K) (link : Link) (r : Bool × Link)
      → r.0 ≡ true
      → r.1.sent ≡ link.sent ++ (serialize key value ∷ [])
      → TakesAll r.1.answer
      → OneSends key value lane link (flushed now key (sent_result key value lane r))
  unfolding forget_pending
  flushed-OneSends now key value lane link (false, link') ok sent takes = cc
  flushed-OneSends now key value lane link (true, link') ok sent takes = record {
    sends = inr sent;
    others = λ k other. lookup-insert key k value lane.last_sent ∙ rw other;
    takes = takes;
  }

  flush_one-OneSends :
      (now : ℕ) (key : K) (value : List ℕ) (lane : Lane K) (link : Link)
      → TakesAll link.answer
      → OneSends key value lane link (flush_one now (serialize key value) key value lane link)
  unfolding flush_one try_send_now forget_pending
  flush_one-OneSends now key value lane link takes =
      elim (Bool-cases (holds (lookup key lane.last_sent) value)) [
        | inl same ↦ rw same (record {
          sends = inl (holds→eq _ _ same, refl);
          others = λ k other. refl;
          takes = takes;
        })
        | inr other ↦ rw other (
            let payload = serialize key value in
            flushed-OneSends now key value lane link (transmit payload link)
              (transmit-TakesAll payload link takes) (transmit-sent payload link takes)
              (subst TakesAll (sym (transmit-answer payload link)) takes))
      ]

  -- A value that waits is among the messages, or is the one that was sent last.
  abbrev pub Reaches : K → Option (List ℕ) → Option (List ℕ) → List (List ℕ) → Type 0
  Reaches key none last new = Unit
  Reaches key (some value) last new = (last ≡ some value) ⊎ Among (serialize key value) new

  -- From `before` to `after`, the messages of the values that wait for a key of the entries are
  -- sent, but for those that were sent last, and there are at most as many as entries.
  abbrev Wired :
      Dict K (List ℕ) → Dict K (List ℕ) → Dict K (List ℕ) → List (List ℕ) → List (List ℕ) → Type ℓ
  Wired entries pending last_sent before after =
      (new : List (List ℕ)) × (after ≡ before ++ new)
      × ((k : K) (v : List ℕ)
          → has k entries ≡ true
          → lookup k pending ≡ some v
          → (lookup k last_sent ≡ some v) ⊎ Among (serialize k v) new)
      × AreMessages pending new
      × (length new ≤ length entries)

  Wired-step :
      (key : K) (value : List ℕ) (rest pending : Dict K (List ℕ)) (lane : Lane K) (link : Link)
      (r : Bool × Lane K × Link) (after : List (List ℕ))
      → lookup key pending ≡ some value
      → OneSends key value lane link r
      → Wired rest pending r.1.last_sent r.2.sent after
      → Wired ((key, value) ∷ rest) pending lane.last_sent link.sent after
  unfolding has
  Wired-step key value rest pending lane link r after waits one (new, ends, told, are, few) =
      elim one.sends [
        | inl (same, quiet) ↦ (
          new,
          subst (λ s. after ≡ s ++ new) quiet ends,
          (λ k v is found. elim (Bool-cases (e.beq key k)) [
            | inl here ↦ inl (
                subst (λ j. lookup j lane.last_sent ≡ lookup j pending) ((e.beq_iff key k).0 here)
                  (same ∙ sym waits)
                ∙ found)
            | inr other ↦ elim (told k v (rw other at is) found) [
              | inl old ↦ inl (sym (one.others k other) ∙ old)
              | inr sent ↦ inr sent
            ]
          ]),
          are,
          omega (arith, few),
        )
        | inr sent ↦
            let payload = serialize key value in
            (
              payload ∷ new,
              subst (λ s. after ≡ s ++ new) sent ends ∙ append_assoc link.sent (payload ∷ []) new,
              (λ k v is found. elim (Bool-cases (e.beq key k)) [
                | inl here ↦
                    let named = (e.beq_iff key k).0 here in
                    let valued : v ≡ value =
                      some-injective _ _
                        (sym found ∙ sym (ap (λ j. lookup j pending) named) ∙ waits) in
                    inr (inl (λ i. serialize (sym named i) (valued i)))
                | inr other ↦ elim (told k v (rw other at is) found) [
                  | inl old ↦ inl (sym (one.others k other) ∙ old)
                  | inr more ↦ inr (inr more)
                ]
              ]),
              ((key, value, waits, refl), are),
              omega (arith, few),
            )
      ]

  flush_list-Wired :
      (now : ℕ) (entries pending : Dict K (List ℕ)) (lane : Lane K) (link : Link)
      → All (Agrees pending) entries
      → TakesAll link.answer
      → Wired entries pending lane.last_sent link.sent
          (flush_list serialize now entries lane link).2.sent
  unfolding flush_list has
  flush_list-Wired now [] pending lane link all takes =
      ([], sym (append-nil link.sent), (λ k v is found. cc), tt, omega arith)
  flush_list-Wired now ((key, value) ∷ rest) pending lane link all takes =
      let one = flush_one-OneSends now key value lane link takes in
      let r = flush_one now (serialize key value) key value lane link in
      Wired-step key value rest pending lane link r _ all.0 one
        (flush_list-Wired now rest pending r.1 r.2 all.1 one.takes)

  length-keep_found :
      (key : K) (o : Option (List ℕ)) (rest : Dict K (List ℕ))
      → length (keep_found key o rest) ≤ suc (length rest)
  length-keep_found key none rest = omega arith
  length-keep_found key (some v) rest = omega arith

  length-to_flush :
      (now : ℕ) (due : Dict K ℕ) (pending : Dict K (List ℕ))
      → length (to_flush now due pending) ≤ length due
  unfolding to_flush
  length-to_flush now [] pending = omega arith
  length-to_flush now ((key, t) ∷ due) pending =
      let ih = length-to_flush now due pending in
      elim (Bool-cases (ltb now t)) [
        | inl later ↦ rw later (omega (arith, ih))
        | inr due_now ↦ rw due_now (
            omega
              (arith, ih, length-keep_found key (lookup key pending) (to_flush now due pending)))
      ]

  reaches :
      (k : K) (waiting last : Option (List ℕ)) (new : List (List ℕ))
      → ((v : List ℕ) → waiting ≡ some v → (last ≡ some v) ⊎ Among (serialize k v) new)
      → Reaches k waiting last new
  reaches k none last new h = tt
  reaches k (some v) last new h = h v refl

  -- A flush past every deadline sends the message of every value that waits, unless it was sent
  -- last, and no other message; there are at most as many messages as deadlines.
  pub flush_pending-Reaches :
      (now : ℕ) (lane : Lane K) (link : Link) (k : K)
      → Paired lane
      → AllDue now lane
      → TakesAll link.answer
      → (new : List (List ℕ)) × ((flush_pending serialize now lane link).2.sent ≡ link.sent ++ new)
        × Reaches k (lookup k lane.pending) (lookup k lane.last_sent) new
        × AreMessages lane.pending new
        × (length new ≤ length lane.due)
  unfolding flush_pending
  flush_pending-Reaches now lane link k paired past takes =
      let (new, ends, told, are, few) =
        flush_list-Wired now (to_flush now lane.due lane.pending) lane.pending lane link
          (to_flush-Agrees now lane.due lane.pending) takes in
      (
        new,
        ends,
        reaches k (lookup k lane.pending) (lookup k lane.last_sent) new (λ v found.
            let (t, deadline) =
              lookup-has k lane.due (sym (paired k) ∙ has-lookup k lane.pending v found) in
            told k v
              (to_flush-has now k lane.due lane.pending t v deadline (past k t deadline) found)
              found),
        are,
        omega (arith, few, length-to_flush now lane.due lane.pending),
      )

  pub Reaches-left :
      (k : K) (waiting last : Option (List ℕ)) (before after : List (List ℕ))
      → Reaches k waiting last before
      → Reaches k waiting last (before ++ after)
  Reaches-left k none last before after h = tt
  Reaches-left k (some v) last before after (inl old) = inl old
  Reaches-left k (some v) last before after (inr sent) =
      inr (Among-append_left (serialize k v) before after sent)

  pub Reaches-right :
      (k : K) (waiting last : Option (List ℕ)) (before after : List (List ℕ))
      → Reaches k waiting last after
      → Reaches k waiting last (before ++ after)
  Reaches-right k none last before after h = tt
  Reaches-right k (some v) last before after (inl old) = inl old
  Reaches-right k (some v) last before after (inr sent) =
      inr (Among-append_right (serialize k v) before after sent)

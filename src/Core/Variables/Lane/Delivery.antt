-- ===== src/Core/Variables/Lane/Delivery.antt =====
-- The debounce of src/core/network_variable_manager.cpp loses no value: what was last set is on
-- the wire, or waits with a deadline, and a flush past the deadline sends it.
use styly_net_sync_godot.Base.{
  ℕ, ◌≤◌, ◌≡◌, refl, sym, ap, ◌∙◌, subst, inl, inr, Bool, true, false, Option, none, some, List, [],
  ◌∷◌, arith, if◌then◌else◌, Bool-cases, Option-cases, ltb, All,
}
use styly_net_sync_godot.Base.Keys.{Key, bytes_eq_iff}
use styly_net_sync_godot.Base.Dict.{
  Dict, lookup, has, lookup-insert, lookup-erase, has-lookup, lookup-has, beq_refl,
}
use styly_net_sync_godot.Core.Link.{Link, transmit, TakesAll, transmit-TakesAll, transmit-answer}
use styly_net_sync_godot.Core.Variables.Lane.{
  Lane, holds, allows, forget_pending, remember, sent_result, try_send_now, after_send, postpone,
  submit, keep_found, to_flush, flushed, flush_one, flush_list, flush_pending,
}
use styly_net_sync_godot.Core.Variables.Lane.Paired.{Paired}

-- A value that equals the one on record.
pub holds→eq : (o : Option (List ℕ)) (value : List ℕ) → holds o value ≡ true → o ≡ some value
holds→eq none value h = cc
holds→eq (some v) value h = ap some ((bytes_eq_iff v value).0 h)

-- What the peers will see once all is sent.
abbrev pub newer : Option (List ℕ) → Option (List ℕ) → Option (List ℕ)
newer none sent = sent
newer (some v) sent = some v

-- The first of two writes counts only where the second is not made.
merge {ℓ} :
    {A : Type ℓ} (first later : Bool) {last : A} (old written goal middle : A)
    → (first ≡ true → written ≡ goal)
    → middle ≡ (if first then written else old)
    → last ≡ (if later then goal else middle)
    → last ≡ (if if first then true else later then goal else old)
merge true true old written goal middle same p q = q
merge true false old written goal middle same p q = q ∙ p ∙ same refl
merge false true old written goal middle same p q = q
merge false false old written goal middle same p q = q ∙ p

module _ {ℓ} {K : Type ℓ} ⦃e : Key K⦄ where
  pub intent : K → Lane K → Option (List ℕ)
  intent key lane = newer (lookup key lane.pending) (lookup key lane.last_sent)

  lookup-remember :
      (key k : K) (value : List ℕ) (deadline : ℕ) (lane : Lane K)
      → lookup k (remember key value deadline lane).pending
        ≡ (if e.beq key k then some value else lookup k lane.pending)
  unfolding remember
  lookup-remember key k value deadline lane = lookup-insert key k value lane.pending

  remember-intent :
      (key : K) (value : List ℕ) (deadline : ℕ) (lane : Lane K)
      → intent key (remember key value deadline lane) ≡ some value
  unfolding intent
  remember-intent key value deadline lane =
      rw (lookup-remember key key value deadline lane, beq_refl key)

  after_send-intent :
      (now : ℕ) (key : K) (value : List ℕ) (r : Bool × Lane K × Link)
      → intent key (after_send now key value r).0 ≡ some value
  after_send-intent now key value (true, lane, link) = remember-intent key value _ _
  after_send-intent now key value (false, lane, link) = remember-intent key value _ _

  postpone-intent :
      (now : ℕ) (key : K) (value : List ℕ) (t : Option ℕ) (lane : Lane K)
      → allows now t ≡ false
      → intent key (postpone key value t lane) ≡ some value
  postpone-intent now key value none lane h = cc
  postpone-intent now key value (some t) lane h = remember-intent key value t lane

  forget_pending-intent :
      (key : K) (value : List ℕ) (lane : Lane K)
      → lookup key lane.last_sent ≡ some value
      → intent key (forget_pending key lane) ≡ some value
  unfolding intent forget_pending
  forget_pending-intent key value lane h = rw (lookup-erase key key lane.pending, beq_refl key) h

  -- After a value is submitted it is the intent, whatever the transport answers and whether or
  -- not the key is in its cooldown.
  pub submit-intent :
      (now : ℕ) (payload : List ℕ) (key : K) (value : List ℕ) (lane : Lane K) (link : Link)
      → intent key (submit now payload key value lane link).0 ≡ some value
  unfolding submit
  submit-intent now payload key value lane link =
      elim (Bool-cases (holds (lookup key lane.last_sent) value)) [
        | inl same ↦ rw same (forget_pending-intent key value lane (holds→eq _ _ same))
        | inr other ↦ rw other (elim (Bool-cases (allows now (lookup key lane.next_allowed))) [
          | inl now_ok ↦
              rw now_ok (after_send-intent now key value (try_send_now payload key value lane link))
          | inr later ↦
              rw later (postpone-intent now key value (lookup key lane.next_allowed) lane later)
        ])
      ]

  -- What one round of a flush does to the two maps when its send is accepted.
  record Rounds (key k : K) (value : List ℕ) (lane : Lane K) (r : Bool × Lane K × Link)
      : Type ℓ where
    sent : r.0 ≡ true
    pending : lookup k r.1.pending ≡ (if e.beq key k then none else lookup k lane.pending)
    last_sent :
        lookup k r.1.last_sent ≡ (if e.beq key k then some value else lookup k lane.last_sent)
    takes : TakesAll r.2.answer

  already :
      (key k : K) (value : List ℕ) (m : Dict K (List ℕ))
      → lookup key m ≡ some value
      → lookup k m ≡ (if e.beq key k then some value else lookup k m)
  already key k value m h = elim (Bool-cases (e.beq key k)) [
    | inl same ↦ rw same (subst (λ j. lookup j m ≡ some value) ((e.beq_iff key k).0 same) h)
    | inr other ↦ rw other
  ]

  skips :
      (key k : K) (value : List ℕ) (lane : Lane K) (link : Link)
      → lookup key lane.last_sent ≡ some value
      → TakesAll link.answer
      → Rounds key k value lane (true, forget_pending key lane, link)
  unfolding forget_pending
  skips key k value lane link h takes = record {
    sent = refl;
    pending = lookup-erase key k lane.pending;
    last_sent = already key k value lane.last_sent h;
    takes = takes;
  }

  sends :
      (now : ℕ) (key k : K) (value : List ℕ) (lane : Lane K) (r : Bool × Link)
      → r.0 ≡ true
      → TakesAll r.1.answer
      → Rounds key k value lane (flushed now key (sent_result key value lane r))
  unfolding forget_pending
  sends now key k value lane (false, link) h takes = cc
  sends now key k value lane (true, link) h takes = record {
    sent = refl;
    pending = lookup-erase key k lane.pending;
    last_sent = lookup-insert key k value lane.last_sent;
    takes = takes;
  }

  flush_one-Rounds :
      (now : ℕ) (payload : List ℕ) (key k : K) (value : List ℕ) (lane : Lane K) (link : Link)
      → TakesAll link.answer
      → Rounds key k value lane (flush_one now payload key value lane link)
  unfolding flush_one try_send_now
  flush_one-Rounds now payload key k value lane link takes =
      elim (Bool-cases (holds (lookup key lane.last_sent) value)) [
        | inl same ↦ rw same (skips key k value lane link (holds→eq _ _ same) takes)
        | inr other ↦ rw other (
            sends now key k value lane (transmit payload link)
              (transmit-TakesAll payload link takes)
              (subst TakesAll (sym (transmit-answer payload link)) takes))
      ]

  -- The entries of a flush are what is pending.
  abbrev pub Agrees : Dict K (List ℕ) → K × List ℕ → Type 0
  Agrees pending (key, value) = lookup key pending ≡ some value

  keep_found-Agrees :
      (key : K) (o : Option (List ℕ)) (pending rest : Dict K (List ℕ))
      → lookup key pending ≡ o
      → All (Agrees pending) rest
      → All (Agrees pending) (keep_found key o rest)
  keep_found-Agrees key none pending rest h all = all
  keep_found-Agrees key (some value) pending rest h all = (h, all)

  pub to_flush-Agrees :
      (now : ℕ) (due : Dict K ℕ) (pending : Dict K (List ℕ))
      → All (Agrees pending) (to_flush now due pending)
  unfolding to_flush
  to_flush-Agrees now [] pending = tt
  to_flush-Agrees now ((key, t) ∷ due) pending = elim (Bool-cases (ltb now t)) [
    | inl later ↦ rw later (to_flush-Agrees now due pending)
    | inr due_now ↦ rw due_now (
        keep_found-Agrees key (lookup key pending) pending (to_flush now due pending) refl
          (to_flush-Agrees now due pending))
  ]

  flush_list-Rounds :
      (serialize : K → List ℕ → List ℕ) (now : ℕ) (k : K) (goal : Option (List ℕ))
      (entries pending : Dict K (List ℕ)) (lane : Lane K) (link : Link)
      → All (Agrees pending) entries
      → lookup k pending ≡ goal
      → TakesAll link.answer
      → let r = flush_list serialize now entries lane link in
        (r.0 ≡ true)
        × (lookup k r.1.pending ≡ (if has k entries then none else lookup k lane.pending))
        × (lookup k r.1.last_sent ≡ (if has k entries then goal else lookup k lane.last_sent))
        × TakesAll r.2.answer
  unfolding flush_list has
  flush_list-Rounds serialize now k goal [] pending lane link all h takes =
      (refl, refl, refl, takes)
  flush_list-Rounds serialize now k goal ((key, value) ∷ rest) pending lane link all h takes =
      let one = flush_one now (serialize key value) key value lane link in
      let r = flush_one-Rounds now (serialize key value) key k value lane link takes in
      let ih = flush_list-Rounds serialize now k goal rest pending one.1 one.2 all.1 h r.takes in
      (
        rw r.sent ih.0,
        merge (e.beq key k) (has k rest) _ none none _ (λ _. refl) r.pending ih.1,
        merge (e.beq key k) (has k rest) _ (some value) goal _
            (λ same.
              sym (subst (λ j. lookup j pending ≡ some value) ((e.beq_iff key k).0 same) all.0) ∙ h)
            r.last_sent ih.2,
        ih.3,
      )

  keep_found-keeps :
      (key k : K) (o : Option (List ℕ)) (rest : Dict K (List ℕ))
      → has k rest ≡ true
      → has k (keep_found key o rest) ≡ true
  unfolding has
  keep_found-keeps key k none rest h = h
  keep_found-keeps key k (some v) rest h = ground arith

  keep_found-finds :
      (key k : K) (o : Option (List ℕ)) (value : List ℕ) (pending rest : Dict K (List ℕ))
      → e.beq key k ≡ true
      → lookup key pending ≡ o
      → lookup k pending ≡ some value
      → has k (keep_found key o rest) ≡ true
  unfolding has
  keep_found-finds key k none value pending rest same h found =
      cc (subst (λ j. lookup j pending ≡ none) ((e.beq_iff key k).0 same) h, found)
  keep_found-finds key k (some v) value pending rest same h found = rw same

  keep_found-none :
      (key k : K) (o : Option (List ℕ)) (pending rest : Dict K (List ℕ))
      → lookup key pending ≡ o
      → lookup k pending ≡ none
      → has k rest ≡ false
      → has k (keep_found key o rest) ≡ false
  unfolding has
  keep_found-none key k none pending rest h missing below = below
  keep_found-none key k (some v) pending rest h missing below = elim (Bool-cases (e.beq key k)) [
    | inl same ↦ cc (subst (λ j. lookup j pending ≡ some v) ((e.beq_iff key k).0 same) h, missing)
    | inr other ↦ rw other below
  ]

  pub to_flush-has :
      (now : ℕ) (k : K) (due : Dict K ℕ) (pending : Dict K (List ℕ)) (t : ℕ) (value : List ℕ)
      → lookup k due ≡ some t
      → t ≤ now
      → lookup k pending ≡ some value
      → has k (to_flush now due pending) ≡ true
  unfolding to_flush lookup has
  to_flush-has now k [] pending t value h le found = cc
  to_flush-has now k ((key, d) ∷ due) pending t value h le found = elim (Bool-cases (e.beq key k)) [
    | inl same ↦
        let soon : ltb now d ≡ false = ground (arith, rw same at h) in
        rw soon (
          keep_found-finds key k (lookup key pending) value pending (to_flush now due pending) same
            refl found)
    | inr other ↦
        let ih = to_flush-has now k due pending t value (rw other at h) le found in
        elim (Bool-cases (ltb now d)) [
          | inl later ↦ rw later ih
          | inr soon ↦
              rw soon (keep_found-keeps key k (lookup key pending) (to_flush now due pending) ih)
        ]
  ]

  to_flush-none :
      (now : ℕ) (k : K) (due : Dict K ℕ) (pending : Dict K (List ℕ))
      → lookup k pending ≡ none
      → has k (to_flush now due pending) ≡ false
  unfolding to_flush has
  to_flush-none now k [] pending found = refl
  to_flush-none now k ((key, d) ∷ due) pending found =
      let ih = to_flush-none now k due pending found in
      elim (Bool-cases (ltb now d)) [
        | inl later ↦ rw later ih
        | inr soon ↦ rw soon (
            keep_found-none key k (lookup key pending) pending (to_flush now due pending) refl found
              ih)
      ]

  -- No deadline lies after `now`.
  abbrev pub AllDue : ℕ → Lane K → Type ℓ
  AllDue now lane = (k : K) (t : ℕ) → lookup k lane.due ≡ some t → t ≤ now

  -- A flush past every deadline, over a transport that takes what it is given, reports success,
  -- leaves nothing pending and has the intent of every key on the wire.
  pub flush_pending-delivers :
      (serialize : K → List ℕ → List ℕ) (now : ℕ) (lane : Lane K) (link : Link) (k : K)
      → Paired lane
      → AllDue now lane
      → TakesAll link.answer
      → let r = flush_pending serialize now lane link in
        (r.0 ≡ true)
        × (lookup k r.1.pending ≡ none)
        × (lookup k r.1.last_sent ≡ intent k lane)
        × TakesAll r.2.answer
  unfolding flush_pending intent
  flush_pending-delivers serialize now lane link k paired past takes =
      elim (Option-cases (lookup k lane.pending)) [
        | inl nothing ↦
            let rounds =
              flush_list-Rounds serialize now k none (to_flush now lane.due lane.pending)
                lane.pending lane link (to_flush-Agrees now lane.due lane.pending) nothing takes in
            let out = to_flush-none now k lane.due lane.pending nothing in
            (rounds.0, rw out at rounds.1 ∙ nothing, rw nothing (rw out at rounds.2), rounds.3)
        | inr (value, waiting) ↦
            let rounds =
              flush_list-Rounds serialize now k (some value) (to_flush now lane.due lane.pending)
                lane.pending lane link (to_flush-Agrees now lane.due lane.pending) waiting takes in
            let (t, deadline) =
              lookup-has k lane.due (sym (paired k) ∙ has-lookup k lane.pending value waiting) in
            let inside =
              to_flush-has now k lane.due lane.pending t value deadline (past k t deadline)
                waiting in
            (rounds.0, rw inside at rounds.1, rw waiting (rw inside at rounds.2), rounds.3)
      ]

-- ===== src/Core/Variables/Lane/Paired.antt =====
-- The pending values and the deadlines of src/core/network_variable_manager.cpp have the same keys.
use styly_net_sync_godot.Base.{
  ℕ, ◌+◌, ◌≡◌, refl, inl, inr, Bool, true, false, Option, none, some, List, [], ◌∷◌, arith,
  Bool-cases,
}
use styly_net_sync_godot.Base.Keys.{Key}
use styly_net_sync_godot.Base.Dict.{Dict, lookup, has, insert, has-insert, has-erase}
use styly_net_sync_godot.Core.Link.{Link, transmit}
use styly_net_sync_godot.Core.Variables.Lane.{
  Lane, holds, allows, forget_pending, remember, sent_result, try_send_now, after_send, postpone,
  submit, to_flush, flushed, flush_one, flush_list, flush_pending, debounce_interval, empty_lane,
}

module _ {ℓ} {K : Type ℓ} ⦃e : Key K⦄ where
  abbrev pub Paired : Lane K → Type ℓ
  Paired lane = (k : K) → has k lane.pending ≡ has k lane.due

  pub empty_lane-Paired : Paired empty_lane
  unfolding has
  empty_lane-Paired k = refl

  pub forget_pending-Paired :
      (key : K) (lane : Lane K) → Paired lane → Paired (forget_pending key lane)
  unfolding forget_pending
  forget_pending-Paired key lane p k =
      ground (arith, p k, has-erase key k lane.pending, has-erase key k lane.due)

  remember-Paired :
      (key : K) (value : List ℕ) (deadline : ℕ) (lane : Lane K)
      → Paired lane
      → Paired (remember key value deadline lane)
  unfolding remember
  remember-Paired key value deadline lane p k = ground (
    arith,
    p k,
    e.beq_iff key k,
    has-insert key k value lane.pending,
    has-insert key k deadline lane.due,
  )

  sent_result-Paired :
      (key : K) (value : List ℕ) (lane : Lane K) (r : Bool × Link)
      → Paired lane
      → Paired (sent_result key value lane r).1
  sent_result-Paired key value lane (true, link) p = p
  sent_result-Paired key value lane (false, link) p = p

  after_send-Paired :
      (now : ℕ) (key : K) (value : List ℕ) (r : Bool × Lane K × Link)
      → Paired r.1
      → Paired (after_send now key value r).0
  after_send-Paired now key value (true, lane, link) p =
      remember-Paired key value (now + debounce_interval)
        (record lane { next_allowed = insert key (now + debounce_interval) lane.next_allowed }) p
  after_send-Paired now key value (false, lane, link) p =
      remember-Paired key value (now + debounce_interval) lane p

  postpone-Paired :
      (key : K) (value : List ℕ) (t : Option ℕ) (lane : Lane K)
      → Paired lane
      → Paired (postpone key value t lane)
  postpone-Paired key value none lane p = p
  postpone-Paired key value (some t) lane p = remember-Paired key value t lane p

  pub submit-Paired :
      (now : ℕ) (payload : List ℕ) (key : K) (value : List ℕ) (lane : Lane K) (link : Link)
      → Paired lane
      → Paired (submit now payload key value lane link).0
  unfolding submit try_send_now
  submit-Paired now payload key value lane link p =
      elim (Bool-cases (holds (lookup key lane.last_sent) value)) [
        | inl same ↦ rw same (forget_pending-Paired key lane p)
        | inr other ↦ rw other (elim (Bool-cases (allows now (lookup key lane.next_allowed))) [
          | inl now_ok ↦ rw now_ok (
              after_send-Paired now key value (try_send_now payload key value lane link)
                (sent_result-Paired key value lane (transmit payload link) p))
          | inr later ↦ rw later (postpone-Paired key value (lookup key lane.next_allowed) lane p)
        ])
      ]

  flushed-Paired :
      (now : ℕ) (key : K) (r : Bool × Lane K × Link) → Paired r.1 → Paired (flushed now key r).1
  flushed-Paired now key (true, lane, link) p = forget_pending-Paired key lane p
  flushed-Paired now key (false, lane, link) p = p

  pub flush_one-Paired :
      (now : ℕ) (payload : List ℕ) (key : K) (value : List ℕ) (lane : Lane K) (link : Link)
      → Paired lane
      → Paired (flush_one now payload key value lane link).1
  unfolding flush_one try_send_now
  flush_one-Paired now payload key value lane link p =
      elim (Bool-cases (holds (lookup key lane.last_sent) value)) [
        | inl same ↦ rw same (forget_pending-Paired key lane p)
        | inr other ↦ rw other (
            flushed-Paired now key (try_send_now payload key value lane link)
              (sent_result-Paired key value lane (transmit payload link) p))
      ]

  flush_list-Paired :
      (serialize : K → List ℕ → List ℕ) (now : ℕ) (entries : Dict K (List ℕ)) (lane : Lane K)
      (link : Link)
      → Paired lane
      → Paired (flush_list serialize now entries lane link).1
  unfolding flush_list
  flush_list-Paired serialize now [] lane link p = p
  flush_list-Paired serialize now ((key, value) ∷ rest) lane link p =
      flush_list-Paired serialize now rest _ _
        (flush_one-Paired now (serialize key value) key value lane link p)

  pub flush_pending-Paired :
      (serialize : K → List ℕ → List ℕ) (now : ℕ) (lane : Lane K) (link : Link)
      → Paired lane
      → Paired (flush_pending serialize now lane link).1
  unfolding flush_pending
  flush_pending-Paired serialize now lane link p =
      flush_list-Paired serialize now (to_flush now lane.due lane.pending) lane link p

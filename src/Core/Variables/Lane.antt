-- ===== src/Core/Variables/Lane.antt =====
-- The send side of NetworkVariableManager in src/core/network_variable_manager.cpp. The class has
-- it twice, with the keys `std::string` (global variables) and `std::pair<int, std::string>`
-- (client variables); here it is once, over any key. Times are whole milliseconds.
pub mod Paired
pub mod Delivery
pub mod Wire
use styly_net_sync_godot.Base.{
  ℕ, ◌+◌, Bool, true, false, not, ◌&&◌, Option, none, some, List, [], ◌∷◌, ltb, leb, if◌then◌else◌,
}
use styly_net_sync_godot.Base.Keys.{Key, bytes_eq}
use styly_net_sync_godot.Base.Dict.{Dict, lookup, has, insert, erase}
use styly_net_sync_godot.Core.Link.{Link, transmit}

-- kDebounceInterval
abbrev pub debounce_interval : ℕ
debounce_interval = 100

-- last_sent_*_, next_allowed_*_, pending_*_ and due_*_.
pub record Lane {ℓ} (K : Type ℓ) : Type ℓ where
  pub last_sent : Dict K (List ℕ)
  pub next_allowed : Dict K ℕ
  pub pending : Dict K (List ℕ)
  pub due : Dict K ℕ

-- `it != end() && it->second == value`
abbrev pub holds : Option (List ℕ) → List ℕ → Bool
holds none value = false
holds (some v) value = bytes_eq v value

-- `it == end() || now_seconds >= it->second`
abbrev pub allows : ℕ → Option ℕ → Bool
allows now none = true
allows now (some t) = leb t now

module _ {ℓ} {K : Type ℓ} where
  abbrev pub empty_lane : Lane K
  empty_lane = record { last_sent = []; next_allowed = []; pending = []; due = [] }

module _ {ℓ} {K : Type ℓ} ⦃e : Key K⦄ where
  unfoldable pub forget_pending : K → Lane K → Lane K
  forget_pending key lane = record lane {
    pending = erase key lane.pending;
    due = erase key lane.due;
  }

  -- Update the pending value, and keep a deadline that is already there.
  unfoldable pub remember : K → List ℕ → ℕ → Lane K → Lane K
  remember key value deadline lane = record lane {
    pending = insert key value lane.pending;
    due = if has key lane.due then lane.due else insert key deadline lane.due;
  }

  abbrev pub sent_result : K → List ℕ → Lane K → Bool × Link → Bool × Lane K × Link
  sent_result key value lane (true, link) =
      (true, record lane { last_sent = insert key value lane.last_sent }, link)
  sent_result key value lane (false, link) = (false, lane, link)

  -- try_send_global_now and try_send_client_now, on the serialised message.
  unfoldable pub try_send_now : List ℕ → K → List ℕ → Lane K → Link → Bool × Lane K × Link
  try_send_now payload key value lane link = sent_result key value lane (transmit payload link)

  -- The tail of the immediate branch, by whether the send was accepted.
  abbrev pub after_send : ℕ → K → List ℕ → Bool × Lane K × Link → Lane K × Link
  after_send now key value (true, lane, link) = (
    remember key value (now + debounce_interval)
        (record lane { next_allowed = insert key (now + debounce_interval) lane.next_allowed }),
    link,
  )
  after_send now key value (false, lane, link) =
      (remember key value (now + debounce_interval) lane, link)

  abbrev pub postpone : K → List ℕ → Option ℕ → Lane K → Lane K
  postpone key value (some t) lane = remember key value t lane
  postpone key value none lane = lane

  -- set_global and set_client from the dedupe on.
  unfoldable pub submit : ℕ → List ℕ → K → List ℕ → Lane K → Link → Lane K × Link
  submit now payload key value lane link =
      if holds (lookup key lane.last_sent) value
      then (forget_pending key lane, link)
      else if allows now (lookup key lane.next_allowed)
      then after_send now key value (try_send_now payload key value lane link)
      else (postpone key value (lookup key lane.next_allowed) lane, link)

  abbrev pub keep_found : K → Option (List ℕ) → Dict K (List ℕ) → Dict K (List ℕ)
  keep_found key none rest = rest
  keep_found key (some value) rest = (key, value) ∷ rest

  -- What a flush collects before it sends: the due entries, in the order of their keys.
  unfoldable pub to_flush : ℕ → Dict K ℕ → Dict K (List ℕ) → Dict K (List ℕ)
  to_flush now [] pending = []
  to_flush now ((key, t) ∷ due) pending =
      let rest = to_flush now due pending in
      if ltb now t then rest else keep_found key (lookup key pending) rest

  abbrev pub flushed : ℕ → K → Bool × Lane K × Link → Bool × Lane K × Link
  flushed now key (true, lane, link) = (
    true,
    record (forget_pending key lane) {
      next_allowed = insert key (now + debounce_interval) lane.next_allowed;
    },
    link,
  )
  flushed now key (false, lane, link) = (false, lane, link)

  -- One round of the second loop; the Boolean is false where it clears `all_flushed`.
  unfoldable pub flush_one : ℕ → List ℕ → K → List ℕ → Lane K → Link → Bool × Lane K × Link
  flush_one now payload key value lane link =
      if holds (lookup key lane.last_sent) value
      then (true, forget_pending key lane, link)
      else flushed now key (try_send_now payload key value lane link)

  module _ (serialize : K → List ℕ → List ℕ) where
    unfoldable pub flush_list : ℕ → Dict K (List ℕ) → Lane K → Link → Bool × Lane K × Link
    flush_list now [] lane link = (true, lane, link)
    flush_list now ((key, value) ∷ rest) lane link =
        let (ok, lane', link') = flush_one now (serialize key value) key value lane link in
        let (all, lane'', link'') = flush_list now rest lane' link' in (ok && all, lane'', link'')

    -- flush_pending_global and flush_pending_client.
    unfoldable pub flush_pending : ℕ → Lane K → Link → Bool × Lane K × Link
    flush_pending now lane link = flush_list now (to_flush now lane.due lane.pending) lane link

-- ===== src/Core/Client/Announced.antt =====
-- That NetSyncClient of src/core/netsync_client.cpp is never ready without having said so.
use styly_net_sync_godot.Base.{
  ℕ, ◌≡◌, ◌⊎◌, refl, sym, ap, ◌∙◌, inl, inr, Bool, true, false, ◌||◌, List, [], ◌∷◌, ◌++◌, if_cases,
  Bool-cases, leb, length,
}
use styly_net_sync_godot.Base.Int.{ℤ}
use styly_net_sync_godot.Protocol.Pose.Double.{Double}
use styly_net_sync_godot.Transport.Receive.{TransportLane, control, room_pose, room_objects}
use styly_net_sync_godot.Core.Client.{
  Client, Step, Event, PendingNotification, ConnectionState, disconnected, connecting, connected,
  synchronizing, ready, error, ready_event, state_changed, connection_error, server_discovered,
  client_no_assigned, avatar_connected, avatar_disconnected, rpc_received, global_variable_changed,
  client_variable_changed, ownership_changed, ownership_rejected, server_version, log_event,
  same_state, is_ready, quietly, ◌▸◌,
}
use styly_net_sync_godot.Core.Client.Inbox.{control_inbox_max, handle_payload}
use styly_net_sync_godot.Core.Client.Poll.{Instant, update_ready, work, poll}
use styly_net_sync_godot.Core.Client.Readiness.{transition, update_ready-transition, poll-IsReady}
use styly_net_sync_godot.Core.Client.Silent.{work-Silent}

-- Whether a ready event is among the events.
abbrev is_ready_event : Event → Bool
is_ready_event (ready_event n) = true
is_ready_event (state_changed s) = false
is_ready_event (connection_error text) = false
is_ready_event (server_discovered server) = false
is_ready_event (client_no_assigned n) = false
is_ready_event (avatar_connected n device_id) = false
is_ready_event (avatar_disconnected n) = false
is_ready_event (rpc_received n name args) = false
is_ready_event (global_variable_changed change) = false
is_ready_event (client_variable_changed change) = false
is_ready_event (ownership_changed change) = false
is_ready_event (ownership_rejected rejection) = false
is_ready_event (server_version major minor patch) = false
is_ready_event (log_event note) = false

abbrev pub announces : List Event → Bool
announces [] = false
announces (event ∷ events) = is_ready_event event || announces events

or_left : (a b : Bool) → a ≡ true → (a || b) ≡ true
or_left a b h = rw h

or_right : (a b : Bool) → b ≡ true → (a || b) ≡ true
or_right true b h = refl
or_right false b h = h

announces-append_left :
    (before after : List Event) → announces before ≡ true → announces (before ++ after) ≡ true
announces-append_left [] after h = cc
announces-append_left (event ∷ rest) after h = elim (Bool-cases (is_ready_event event)) [
  | inl is ↦ rw is
  | inr other ↦ rw other (announces-append_left rest after (rw other at h))
]

announces-append_right :
    (before after : List Event) → announces after ≡ true → announces (before ++ after) ≡ true
announces-append_right [] after h = h
announces-append_right (event ∷ rest) after h =
    or_right (is_ready_event event) _ (announces-append_right rest after h)

not_gone : true ≡ false → ⊥
not_gone e = cc

-- A change of the flag comes with the event.
transition-announces :
    (s : ConnectionState) (is fired : Bool) (n : ℤ)
    → (transition s is fired n).2 ≡ true
    → (fired ≡ true) ⊎ (announces (transition s is fired n).0 ≡ true)
transition-announces disconnected is fired n e = inl e
transition-announces error is fired n e = inl e
transition-announces ready true true n e = inl refl
transition-announces ready true false n e = inr refl
transition-announces ready false fired n e = cc
transition-announces connecting true true n e = inl refl
transition-announces connecting true false n e = inr refl
transition-announces connecting false fired n e = inl e
transition-announces connected true true n e = inl refl
transition-announces connected true false n e = inr refl
transition-announces connected false fired n e = inl e
transition-announces synchronizing true true n e = inl refl
transition-announces synchronizing true false n e = inr refl
transition-announces synchronizing false fired n e = inl e

-- What happens to a client between two looks at its state: the network thread delivers a message or
-- a notification, or the game polls.
pub data Turn (W : Type 0) : Type 0 where
  arrives : TransportLane → List ℕ → Turn W
  notifies : PendingNotification → Turn W
  polls : Instant W → Turn W

module _ {W : Type 0} where
  -- The flag after a step was there before, or the step has the event.
  abbrev Told : Client W → Step W → Type 0
  Told c (events, c') = c'.ready_fired ≡ true → (c.ready_fired ≡ true) ⊎ (announces events ≡ true)

  update_ready-Told : (up : Bool) (c : Client W) → Told c (update_ready up c)
  update_ready-Told up c fired =
      let (events, state, was, _, _) = update_ready-transition up c in
      elim (transition-announces c.state (is_ready up c) c.ready_fired c.mapping.local_client_no
        (sym was ∙ fired)) [ inl before ↦ inl before | inr told ↦ inr (ap announces events ∙ told) ]

  Told-then :
      (c : Client W) (step : Step W) (f : Client W → Step W)
      → Told c step
      → ((c' : Client W) → Told c' (f c'))
      → Told c (step ▸ f)
  unfolding ◌▸◌
  Told-then c (events, c') f first next fired = elim (next c' fired) [
    | inr told ↦ inr (announces-append_right events (f c').0 told)
    | inl before ↦ elim (first before) [
      | inl earlier ↦ inl earlier
      | inr told ↦ inr (announces-append_left events (f c').0 told)
    ]
  ]

  handle_payload-fired :
      (lane : TransportLane) (payload : List ℕ) (c : Client W)
      → (handle_payload lane payload c).ready_fired ≡ c.ready_fired
  unfolding handle_payload
  handle_payload-fired control payload c =
      if_cases (λ (c' : Client W). c'.ready_fired ≡ c.ready_fired)
        (leb control_inbox_max (length c.control_inbox)) refl refl
  handle_payload-fired room_pose payload c = refl
  handle_payload-fired room_objects payload c = refl

module _ {W : Type 0} ⦃d : Double W⦄ where
  poll-Told :
      (format_number : List ℕ → List ℕ) (now : Instant W) (c : Client W)
      → Told c (poll format_number now c)
  unfolding poll
  poll-Told format_number now c =
      if_cases (Told c) (same_state c.state disconnected) (λ fired. inl fired)
        (Told-then c (work format_number now c) (update_ready now.up_at_ready)
          (λ fired. inl (sym (work-Silent format_number now c) ∙ fired))
          (update_ready-Told now.up_at_ready))

  unfoldable pub take_turn : (List ℕ → List ℕ) → Turn W → Client W → Step W
  unfolding handle_payload poll
  take_turn format_number (arrives lane payload) c = quietly (handle_payload lane payload c)
  take_turn format_number (notifies note) c =
      quietly (record c { notifications = c.notifications ++ (note ∷ []) })
  take_turn format_number (polls now) c = poll format_number now c

  unfoldable pub take_turns : (List ℕ → List ℕ) → List (Turn W) → Client W → Step W
  unfolding take_turn ◌▸◌
  take_turns format_number [] c = ([], c)
  take_turns format_number (turn ∷ turns) c =
      take_turn format_number turn c ▸ take_turns format_number turns

  take_turn-Told :
      (format_number : List ℕ → List ℕ) (turn : Turn W) (c : Client W)
      → Told c (take_turn format_number turn c)
  unfolding take_turn
  take_turn-Told format_number (arrives lane payload) c fired =
      inl (sym (handle_payload-fired lane payload c) ∙ fired)
  take_turn-Told format_number (notifies note) c fired = inl fired
  take_turn-Told format_number (polls now) c fired = poll-Told format_number now c fired

  take_turns-Told :
      (format_number : List ℕ → List ℕ) (turns : List (Turn W)) (c : Client W)
      → Told c (take_turns format_number turns c)
  unfolding take_turns
  take_turns-Told format_number [] c fired = inl fired
  take_turns-Told format_number (turn ∷ turns) c fired =
      Told-then c (take_turn format_number turn c) (take_turns format_number turns)
        (take_turn-Told format_number turn c) (take_turns-Told format_number turns) fired

  not_disconnected :
      (format_number : List ℕ → List ℕ) (now : Instant W) (c : Client W)
      → (poll format_number now c).1.state ≡ ready
      → same_state c.state disconnected ≡ false
  unfolding poll
  not_disconnected format_number now c e = elim (Bool-cases (same_state c.state disconnected)) [
    | inr there ↦ there
    | inl gone ↦ absurd (not_gone (sym gone ∙ ap (λ s. same_state s disconnected) (rw gone at e)))
  ]

  -- A client is ready only after it said so: if no ready event was fired at first, and after
  -- whatever polls and arriving messages and notifications in whatever order, and then a poll, the
  -- state is ready, then is_ready holds (the transport was up, the client has its number and the
  -- initial snapshot is there), and a ready event is among the events that the polls handed out.
  pub take_turns-announces :
      (format_number : List ℕ → List ℕ) (turns : List (Turn W)) (now : Instant W) (c : Client W)
      → c.ready_fired ≡ false
      → (poll format_number now (take_turns format_number turns c).1).1.state ≡ ready
      → let (events, before) = take_turns format_number turns c in
        let (more, after) = poll format_number now before in
        (is_ready now.up_at_ready after ≡ true) × (announces (events ++ more) ≡ true)
  take_turns-announces format_number turns now c fresh e =
      let (events, before) = take_turns format_number turns c in
      let more = (poll format_number now before).0 in
      let (is, fired) =
        poll-IsReady format_number now before (not_disconnected format_number now before e) e in
      elim (poll-Told format_number now before fired) [
        | inr told ↦ (is, announces-append_right events more told)
        | inl was ↦ elim (take_turns-Told format_number turns c was) [
          | inl earlier ↦ cc (earlier, fresh)
          | inr told ↦ (is, announces-append_left events more told)
        ]
      ]

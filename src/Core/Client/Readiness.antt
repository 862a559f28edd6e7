-- ===== src/Core/Client/Readiness.antt =====
-- When src/core/netsync_client.cpp is ready, and how it becomes so.
use styly_net_sync_godot.Base.{ℕ, ◌≡◌, refl, sym, ap, ◌∙◌, Bool, true, false, List, [], ◌∷◌}
use styly_net_sync_godot.Base.Int.{ℤ}
use styly_net_sync_godot.Protocol.Pose.Double.{Double}
use styly_net_sync_godot.Core.Client.{
  Client, Step, Event, ConnectionState, disconnected, connecting, connected, synchronizing, ready,
  error, ready_event, state_changed, same_state, set_state, has_handshake, is_ready, ◌▸◌,
}
use styly_net_sync_godot.Core.Client.Poll.{Instant, update_ready, poll, work}

-- What update_ready does to the connection state and to `ready_fired`: the events, and both after.
abbrev pub transition : ConnectionState → Bool → Bool → ℤ → List Event × ConnectionState × Bool
transition disconnected is fired n = ([], disconnected, fired)
transition error is fired n = ([], error, fired)
transition ready true true n = ([], ready, true)
transition ready true false n = (ready_event n ∷ [], ready, true)
transition ready false fired n = (state_changed synchronizing ∷ [], synchronizing, false)
transition s true true n = (state_changed ready ∷ [], ready, true)
transition s true false n = (state_changed ready ∷ ready_event n ∷ [], ready, true)
transition s false fired n = ([], s, fired)

no_state : false ≡ true → ⊥
no_state e = cc

transition-ready :
    (s : ConnectionState) (is fired : Bool) (n : ℤ)
    → (transition s is fired n).1 ≡ ready
    → (is ≡ true) × ((transition s is fired n).2 ≡ true)
transition-ready disconnected is fired n e = absurd (no_state (ap (same_state ready) e))
transition-ready error is fired n e = absurd (no_state (ap (same_state ready) e))
transition-ready ready true true n e = (refl, refl)
transition-ready ready true false n e = (refl, refl)
transition-ready ready false fired n e = absurd (no_state (ap (same_state ready) e))
transition-ready connecting true true n e = (refl, refl)
transition-ready connecting true false n e = (refl, refl)
transition-ready connecting false fired n e = absurd (no_state (ap (same_state ready) e))
transition-ready connected true true n e = (refl, refl)
transition-ready connected true false n e = (refl, refl)
transition-ready connected false fired n e = absurd (no_state (ap (same_state ready) e))
transition-ready synchronizing true true n e = (refl, refl)
transition-ready synchronizing true false n e = (refl, refl)
transition-ready synchronizing false fired n e = absurd (no_state (ap (same_state ready) e))

module _ {W : Type 0} where
  abbrev Follows : Step W → List Event × ConnectionState × Bool → Client W → Type 0
  Follows (events, c') (es, state, fired) c =
      (events ≡ es)
      × (c'.state ≡ state)
      × (c'.ready_fired ≡ fired)
      × (c'.mapping ≡ c.mapping)
      × (c'.variables ≡ c.variables)

  follows :
      (up : Bool) (s : ConnectionState) (is fired : Bool) (c : Client W)
      → is_ready up (record c { state = s; ready_fired = fired }) ≡ is
      → Follows
          (update_ready up (record c { state = s; ready_fired = fired }))
          (transition s is fired c.mapping.local_client_no)
          c
  unfolding update_ready set_state ◌▸◌ is_ready has_handshake
  follows up disconnected is fired c e = (refl, refl, refl, refl, refl)
  follows up error is fired c e = (refl, refl, refl, refl, refl)
  follows up ready true true c e = rw e (refl, refl, refl, refl, refl)
  follows up ready true false c e = rw e (refl, refl, refl, refl, refl)
  follows up ready false fired c e = rw e (refl, refl, refl, refl, refl)
  follows up connecting true true c e = rw e (refl, refl, refl, refl, refl)
  follows up connecting true false c e = rw e (refl, refl, refl, refl, refl)
  follows up connecting false fired c e = rw e (refl, refl, refl, refl, refl)
  follows up connected true true c e = rw e (refl, refl, refl, refl, refl)
  follows up connected true false c e = rw e (refl, refl, refl, refl, refl)
  follows up connected false fired c e = rw e (refl, refl, refl, refl, refl)
  follows up synchronizing true true c e = rw e (refl, refl, refl, refl, refl)
  follows up synchronizing true false c e = rw e (refl, refl, refl, refl, refl)
  follows up synchronizing false fired c e = rw e (refl, refl, refl, refl, refl)

  -- The last step of a poll takes the connection state and `ready_fired` along the transitions: to
  -- ready when is_ready holds, with a ready event if none was fired since readiness was last lost;
  -- from ready back to synchronizing when it does not hold; never out of disconnected and error.
  -- The mapping and the variables stay.
  pub update_ready-transition :
      (up : Bool) (c : Client W)
      → let (events, c') = update_ready up c in
        let (es, state, fired) =
          transition c.state (is_ready up c) c.ready_fired c.mapping.local_client_no in
        (events ≡ es)
        × (c'.state ≡ state)
        × (c'.ready_fired ≡ fired)
        × (c'.mapping ≡ c.mapping)
        × (c'.variables ≡ c.variables)
  update_ready-transition up c = follows up c.state (is_ready up c) c.ready_fired c refl

  is_ready-same :
      (up : Bool) (c c' : Client W)
      → c'.mapping ≡ c.mapping
      → c'.variables ≡ c.variables
      → is_ready up c' ≡ is_ready up c
  unfolding is_ready has_handshake
  is_ready-same up c c' e1 e2 = rw (e1, e2) refl

  update_ready-IsReady :
      (up : Bool) (c : Client W)
      → let c' = (update_ready up c).1 in
        c'.state ≡ ready → (is_ready up c' ≡ true) × (c'.ready_fired ≡ true)
  update_ready-IsReady up c e =
      let (_, state, fired, mapping, variables) = update_ready-transition up c in
      let (is, was) =
        transition-ready c.state (is_ready up c) c.ready_fired c.mapping.local_client_no
          (sym state ∙ e) in
      (is_ready-same up c (update_ready up c).1 mapping variables ∙ is, fired ∙ was)

module _ {W : Type 0} ⦃d : Double W⦄ where
  -- After a poll of a client that was not disconnected, the state is ready only if is_ready holds
  -- (the transport was up, the client has its number and the initial snapshot is there) and the
  -- ready event was fired.
  pub poll-IsReady :
      (format_number : List ℕ → List ℕ) (now : Instant W) (c : Client W)
      → same_state c.state disconnected ≡ false
      → let c' = (poll format_number now c).1 in
        c'.state ≡ ready → (is_ready now.up_at_ready c' ≡ true) × (c'.ready_fired ≡ true)
  unfolding poll ◌▸◌
  poll-IsReady format_number now c live =
      rw live (update_ready-IsReady now.up_at_ready (work format_number now c).1)

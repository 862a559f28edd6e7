-- ===== src/Core/Client/Timeout.antt =====
-- How the timeout of src/core/netsync_client.cpp makes a client ready whose room has no variables.
use styly_net_sync_godot.Base.{
  ℕ, ◌+◌, ◌≤◌, ◌≡◌, refl, sym, ap, ◌∙◌, subst, Bool, true, false, Option, none, some, List, [], ◌∷◌,
  arith,
}
use styly_net_sync_godot.Base.Int.{ℤ}
use styly_net_sync_godot.Protocol.Pose.Double.{Double}
use styly_net_sync_godot.Core.Variables.Manager.{
  Manager, tick, initial_sync_timeout, check_initial_sync_timeout,
}
use styly_net_sync_godot.Core.Objects as Objects
use styly_net_sync_godot.Core.Objects.{Transforms}
use styly_net_sync_godot.Protocol.Pose.Body.{ClientPoseBody}
use styly_net_sync_godot.Core.Client.{
  with_variables, with_rpc, with_objects, Client, synchronizing, ready, has_handshake, is_ready,
  ◌▸◌,
}
use styly_net_sync_godot.Core.Client.Poll.{
  hand_over, PoseStep, too_early, stay_quiet, send_now, pose_step, take_step, send_pose,
  outgoing_body, send_local_pose_if_due, Instant, update_ready, poll, drain_internal_events,
  notify_all, greet, drain_inbound, flush_outbound, flush_variables, flush_rpcs, flush_objects,
  check_timeout, work,
}
use styly_net_sync_godot.Core.Client.Readiness.{transition, update_ready-transition}

check_initial_sync_timeout-late :
    (now : ℕ) (m : Manager)
    → m.connection_established ≡ true
    → m.connection_established_at + initial_sync_timeout ≤ now
    → (check_initial_sync_timeout now m).1.has_received_initial_sync ≡ true
unfolding check_initial_sync_timeout
check_initial_sync_timeout-late now m on late = ground (arith, on, late)

synced_state :
    (fired : Bool) (n : ℤ)
    → ((transition synchronizing true fired n).1 ≡ ready)
      × ((transition synchronizing true fired n).2 ≡ true)
synced_state true n = (refl, refl)
synced_state false n = (refl, refl)

module _ {W : Type 0} where
  -- The connection state of a client and what readiness depends on are unchanged.
  abbrev Keeps : Client W → Client W → Type 0
  Keeps c c' =
      (c'.state ≡ c.state)
      × (c'.ready_fired ≡ c.ready_fired)
      × (c'.mapping ≡ c.mapping)
      × (c'.variables ≡ c.variables)

  hand_over-Keeps : (sent : Transforms) (c : Client W) → Keeps c (hand_over sent c)
  hand_over-Keeps [] c = (refl, refl, refl, refl)
  hand_over-Keeps ((object_id, payload) ∷ rest) c = hand_over-Keeps rest _

module _ {W : Type 0} ⦃d : Double W⦄ where
  take_step-Keeps :
      (step : PoseStep) (now : W) (body : ClientPoseBody W) (c : Client W)
      → Keeps c (take_step step now body c)
  take_step-Keeps too_early now body c = (refl, refl, refl, refl)
  take_step-Keeps stay_quiet now body c = (refl, refl, refl, refl)
  take_step-Keeps send_now now body c = (refl, refl, refl, refl)

  send_pose-Keeps :
      (now : W) (body : Option (ClientPoseBody W)) (c : Client W) → Keeps c (send_pose now body c)
  unfolding send_pose
  send_pose-Keeps now none c = (refl, refl, refl, refl)
  send_pose-Keeps now (some body) c = take_step-Keeps (pose_step now body c) now body c

  send_local_pose-Keeps :
      (now : W) (up : Bool) (c : Client W) → Keeps c (send_local_pose_if_due now up c)
  unfolding send_local_pose_if_due
  send_local_pose-Keeps now true c = send_pose-Keeps now (outgoing_body c) c
  send_local_pose-Keeps now false c = (refl, refl, refl, refl)

module _ {W : Type 0} where
  -- What a flush leaves alone, except that the timeout may complete the initial synchronisation.
  record Calm (c c' : Client W) : Type 0 where
    state : c'.state ≡ c.state
    fired : c'.ready_fired ≡ c.ready_fired
    mapping : c'.mapping ≡ c.mapping
    synced : c'.variables.has_received_initial_sync ≡ c.variables.has_received_initial_sync
    established : c'.variables.connection_established ≡ c.variables.connection_established
    since : c'.variables.connection_established_at ≡ c.variables.connection_established_at

  Calm-trans : {a b c : Client W} → Calm a b → Calm b c → Calm a c
  Calm-trans p q = record {
    state = q.state ∙ p.state;
    fired = q.fired ∙ p.fired;
    mapping = q.mapping ∙ p.mapping;
    synced = q.synced ∙ p.synced;
    established = q.established ∙ p.established;
    since = q.since ∙ p.since;
  }

  Keeps-Calm : (c c' : Client W) → Keeps c c' → Calm c c'
  Keeps-Calm c c' (state, fired, mapping, variables) = record {
    state = state;
    fired = fired;
    mapping = mapping;
    synced = ap (λ (m : Manager). m.has_received_initial_sync) variables;
    established = ap (λ (m : Manager). m.connection_established) variables;
    since = ap (λ (m : Manager). m.connection_established_at) variables;
  }

  flush_variables-Calm : (now : ℕ) (c : Client W) → Calm c (flush_variables now c)
  unfolding flush_variables with_variables tick
  flush_variables-Calm now c = record {
    state = refl;
    fired = refl;
    mapping = refl;
    synced = refl;
    established = refl;
    since = refl;
  }

  -- The timeout completes the synchronisation two seconds after the connection.
  check_timeout-lem :
      (now : ℕ) (c : Client W)
      → c.variables.connection_established ≡ true
      → c.variables.connection_established_at + initial_sync_timeout ≤ now
      → let c' = check_timeout now c in
        (c'.state ≡ c.state)
        × (c'.ready_fired ≡ c.ready_fired)
        × (c'.mapping ≡ c.mapping)
        × (c'.variables.has_received_initial_sync ≡ true)
  unfolding check_timeout with_variables
  check_timeout-lem now c on late = (
    refl,
    refl,
    refl,
    check_initial_sync_timeout-late now (record c.variables { link = c.link }) on late,
  )

  is_ready-true :
      (up : Bool) (c : Client W)
      → up ≡ true
      → has_handshake c ≡ true
      → c.variables.has_received_initial_sync ≡ true
      → is_ready up c ≡ true
  unfolding is_ready
  is_ready-true up c e1 e2 e3 = rw (e1, e2, e3) refl

  shook_same : (c' c : Client W) → c'.mapping ≡ c.mapping → has_handshake c' ≡ has_handshake c
  unfolding has_handshake
  shook_same c' c e = rw e refl

  ends_ready :
      (up : Bool) (c' c : Client W)
      → c'.state ≡ synchronizing
      → c'.ready_fired ≡ c.ready_fired
      → c'.mapping ≡ c.mapping
      → is_ready up c' ≡ true
      → ((update_ready up c').1.state ≡ ready)
        × ((update_ready up c').0
            ≡ (transition synchronizing true c.ready_fired c.mapping.local_client_no).0)
        × ((update_ready up c').1.ready_fired ≡ true)
  unfolding is_ready
  ends_ready up c' c state fired mapping is =
      let (events, after, was, _, _) = update_ready-transition up c' in
      let e : transition c'.state (is_ready up c') c'.ready_fired c'.mapping.local_client_no
          ≡ transition synchronizing true c.ready_fired c.mapping.local_client_no =
        rw (state, is, fired, mapping) refl in
      (
        after ∙ ap (λ t. t.1) e ∙ (synced_state c.ready_fired c.mapping.local_client_no).0,
        events ∙ ap (λ t. t.0) e,
        was ∙ ap (λ t. t.2) e ∙ (synced_state c.ready_fired c.mapping.local_client_no).1,
      )

module _ {W : Type 0} ⦃d : Double W⦄ where
  flush_rpcs-Calm : (now : Instant W) (c : Client W) → Calm c (flush_rpcs now c)
  unfolding flush_rpcs with_rpc
  flush_rpcs-Calm now c = record {
    state = refl;
    fired = refl;
    mapping = refl;
    synced = refl;
    established = refl;
    since = refl;
  }

  flush_objects-Calm : (now : W) (c : Client W) → Calm c (flush_objects now c)
  unfolding flush_objects with_objects
  flush_objects-Calm now c =
      let (sent, c') = with_objects (Objects.tick now c.config.transform_send_rate) c in
      Keeps-Calm c (hand_over sent c') (hand_over-Keeps sent c')

  -- All that goes out before the timeout is looked at.
  abbrev flushed : Instant W → Client W → Client W
  flushed now c = flush_objects now.seconds (
      send_local_pose_if_due now.seconds now.up_at_pose
        (flush_rpcs now (flush_variables now.milliseconds c)))

  flushed-Calm : (now : Instant W) (c : Client W) → Calm c (flushed now c)
  flushed-Calm now c =
      let c1 = flush_variables now.milliseconds c in
      let c2 = flush_rpcs now c1 in
      let c3 = send_local_pose_if_due now.seconds now.up_at_pose c2 in
      Calm-trans (Calm-trans (flush_variables-Calm now.milliseconds c) (flush_rpcs-Calm now c1)) (
        Calm-trans (Keeps-Calm c2 c3 (send_local_pose-Keeps now.seconds now.up_at_pose c2))
          (flush_objects-Calm now.seconds c3))

  pub flush_outbound-fired :
      (now : Instant W) (c : Client W) → (flush_outbound now c).ready_fired ≡ c.ready_fired
  unfolding flush_outbound check_timeout with_variables
  flush_outbound-fired now c = (flushed-Calm now c).fired

  flush_outbound-lem :
      (now : Instant W) (c : Client W)
      → c.variables.connection_established ≡ true
      → c.variables.connection_established_at + initial_sync_timeout ≤ now.milliseconds
      → let c' = flush_outbound now c in
        (c'.state ≡ c.state)
        × (c'.ready_fired ≡ c.ready_fired)
        × (c'.mapping ≡ c.mapping)
        × (c'.variables.has_received_initial_sync ≡ true)
  unfolding flush_outbound
  flush_outbound-lem now c on late =
      let calm = flushed-Calm now c in
      let (e1, e2, e3, e4) =
        check_timeout-lem now.milliseconds (flushed now c) (calm.established ∙ on)
          (subst (λ t. t + initial_sync_timeout ≤ now.milliseconds) (sym calm.since) late) in
      (e1 ∙ calm.state, e2 ∙ calm.fired, e3 ∙ calm.mapping, e4)

  -- A client in the synchronizing state with nothing to work off.
  abbrev waiting : Client W → Client W
  waiting c = record c {
    state = synchronizing;
    notifications = [];
    control_inbox = [];
    latest_room_pose = none;
    latest_room_objects = none;
  }

  waits_for :
      (c : Client W)
      → c.state ≡ synchronizing
      → c.notifications ≡ []
      → c.control_inbox ≡ []
      → c.latest_room_pose ≡ none
      → c.latest_room_objects ≡ none
      → c ≡ waiting c
  waits_for c waits quiet idle no_pose no_objects = λ i. record c {
    state = waits i;
    notifications = quiet i;
    control_inbox = idle i;
    latest_room_pose = no_pose i;
    latest_room_objects = no_objects i;
  }

  poll-waiting :
      (format_number : List ℕ → List ℕ) (now : Instant W) (c : Client W)
      → poll format_number now (waiting c)
        ≡ update_ready now.up_at_ready (flush_outbound now (waiting c))
  unfolding poll work drain_internal_events notify_all greet drain_inbound ◌▸◌
  poll-waiting format_number now c = refl

  -- A client that waits for nothing but a snapshot of its room becomes ready two seconds after its
  -- connection, even in a room that has none: in the synchronizing state, with its number from the
  -- handshake, with empty inboxes and the transport up, such a poll ends ready, with the ready
  -- event if none was fired.
  pub poll-times_out :
      (format_number : List ℕ → List ℕ) (now : Instant W) (c : Client W)
      → c.state ≡ synchronizing
      → has_handshake c ≡ true
      → c.notifications ≡ []
      → c.control_inbox ≡ []
      → c.latest_room_pose ≡ none
      → c.latest_room_objects ≡ none
      → c.variables.connection_established ≡ true
      → c.variables.connection_established_at + initial_sync_timeout ≤ now.milliseconds
      → now.up_at_ready ≡ true
      → let (events, c') = poll format_number now c in
        (c'.state ≡ ready)
        × (events ≡ (transition synchronizing true c.ready_fired c.mapping.local_client_no).0)
        × (c'.ready_fired ≡ true)
  poll-times_out format_number now c waits shook quiet idle no_pose no_objects on late up =
      let c' = flush_outbound now (waiting c) in
      let (state, fired, mapping, synced) = flush_outbound-lem now (waiting c) on late in
      let is : is_ready now.up_at_ready c' ≡ true =
        is_ready-true now.up_at_ready c' up (shook_same c' c mapping ∙ shook) synced in
      rw
        (
          ap (poll format_number now) (waits_for c waits quiet idle no_pose no_objects),
          poll-waiting format_number now c,
        )
        (ends_ready now.up_at_ready c' c state fired mapping is)

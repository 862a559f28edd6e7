-- ===== src/Core/Client/Poll.antt =====
-- poll of NetSyncClient in src/core/netsync_client.cpp. It is one step: what the network thread puts
-- into the inboxes meanwhile is taken by the next one.
use styly_net_sync_godot.Base.{
  ℕ, suc, ◌%◌, ◌^◌, Bool, true, false, not, ◌&&◌, ◌||◌, Option, none, some, List, [], ◌∷◌,
  if◌then◌else◌,
}
use styly_net_sync_godot.Base.Int.{pos}
use styly_net_sync_godot.Base.Keys.{bytes_eq}
use styly_net_sync_godot.Core.Link.{transmit}
use styly_net_sync_godot.Protocol.Session.{serialize_client_hello}
use styly_net_sync_godot.Protocol.Pose.Double.{Double, ◌⊖◌, nought, unit}
use styly_net_sync_godot.Protocol.Pose.Codec.{zero_vec3}
use styly_net_sync_godot.Protocol.Pose.Flags.{pose_flag_stealth}
use styly_net_sync_godot.Protocol.Pose.Body.{ClientPoseBody, no_transform}
use styly_net_sync_godot.Protocol.Pose.Messages.{serialize_client_pose}
use styly_net_sync_godot.Core.Objects.{send_interval, Transforms}
use styly_net_sync_godot.Core.Objects as Objects
use styly_net_sync_godot.Core.Rpc.Manager as Rpc
use styly_net_sync_godot.Core.Variables.Manager.{
  tick, on_connection_established, check_initial_sync_timeout,
}
use styly_net_sync_godot.Core.Client.{
  Client, Step, PendingNotification, disconnected, connected, synchronizing, ready, error,
  connected_note, error_note, log_note, discovered_note, ready_event, connection_error,
  server_discovered, log_event, same_state, set_state, begin_transport, command, latest_transform,
  latest_object_transform, with_variables, with_rpc, with_objects, is_ready, quietly, ◌▸◌,
}
use styly_net_sync_godot.Core.Client.Dispatch.{
  process_control_payload, process_room_pose, process_room_objects,
}

-- One instant, as each part of the client measures it, and what is_connected reads of the transport
-- at each of its three calls within poll.
pub record Instant (W : Type 0) : Type 0 where
  pub seconds : W
  pub milliseconds : ℕ
  -- as RpcManager counts them
  pub rpc_milliseconds : ℕ
  pub up_at_flush : Bool
  pub up_at_pose : Bool
  pub up_at_ready : Bool

abbrev pub is_unchanged : List ℕ → Option (List ℕ) → Bool
is_unchanged signature none = false
is_unchanged signature (some last) = bytes_eq signature last

-- What becomes of the pose in a poll.
pub data PoseStep : Type 0 where
  too_early stay_quiet send_now : PoseStep

module _ {W : Type 0} where
  -- The cases of drain_internal_events.
  unfoldable pub notify : PendingNotification → Client W → Step W
  unfolding set_state begin_transport
  notify connected_note c = set_state connected c
  notify (error_note text) c = set_state error c ▸ λ c'. (connection_error text ∷ [], c')
  notify (log_note text) c = (log_event text ∷ [], c)
  notify (discovered_note server) c = (
    server_discovered server ∷ [],
    begin_transport server.address (pos server.control_port) (pos server.transform_port)
        (pos server.sub_port)
        (record c {
          resolved_address = server.address;
          discovered_rest_api_port = server.rest_api_port;
        }),
  )

  unfoldable pub notify_all : List PendingNotification → Client W → Step W
  unfolding notify ◌▸◌
  notify_all [] c = ([], c)
  notify_all (notification ∷ rest) c = notify notification c ▸ notify_all rest

  unfoldable pub drain_internal_events : Client W → Step W
  unfolding notify_all
  drain_internal_events c = notify_all c.notifications (record c { notifications = [] })

  unfoldable pub enqueue_hello : Client W → Client W
  enqueue_hello c =
      let (ok, link) =
        transmit (serialize_client_hello c.config.device_id c.config.stealth_mode) c.link in
      record c { link = link; hello_enqueued = ok || c.hello_enqueued }

  abbrev pub greeted : Client W → Step W
  greeted c = if c.hello_enqueued then set_state synchronizing c else ([], c)

  unfoldable pub greet : ℕ → Client W → Step W
  unfolding enqueue_hello set_state
  greet now c =
      if same_state c.state connected && not c.hello_enqueued
      then greeted
          (enqueue_hello (record c { variables = on_connection_established now c.variables }))
      else ([], c)

  unfoldable pub update_ready : Bool → Client W → Step W
  unfolding is_ready set_state
  update_ready up c =
      if same_state c.state error || same_state c.state disconnected
      then ([], c)
      else if is_ready up c
      then set_state ready c ▸ (λ c'.
        if c'.ready_fired
        then ([], c')
        else (ready_event c'.mapping.local_client_no ∷ [], record c' { ready_fired = true }))
      else if same_state c.state ready
      then set_state synchronizing c ▸ (λ c'. ([], record c' { ready_fired = false }))
      else ([], c)

  unfoldable pub set_local_pose : ClientPoseBody W → Client W → Client W
  set_local_pose body c = record c { local_pose = some body }

  unfoldable pub clear_local_pose : Client W → Client W
  clear_local_pose c = record c { local_pose = none; last_pose_signature = none }

  unfoldable pub flush_variables : ℕ → Client W → Client W
  unfolding with_variables
  flush_variables now c = (with_variables (tick now) c).1

  unfoldable pub check_timeout : ℕ → Client W → Client W
  unfolding with_variables
  check_timeout now c = (with_variables (check_initial_sync_timeout now) c).1

  abbrev pub hand_over : Transforms → Client W → Client W
  hand_over [] c = c
  hand_over ((object_id, payload) ∷ rest) c =
      hand_over rest (command (latest_object_transform object_id payload) c).1

  abbrev pub when_some : Option (List ℕ) → (List ℕ → Client W → Step W) → Client W → Step W
  when_some none process c = ([], c)
  when_some (some payload) process c = process payload c

module _ {W : Type 0} ⦃d : Double W⦄ where
  -- `ClientPoseBody()`
  abbrev pub empty_body : ClientPoseBody W
  empty_body = record {
    pose_seq = 0;
    flags = 0;
    encoding_flags = 0;
    xr_origin_delta_position = zero_vec3;
    xr_origin_delta_yaw = nought;
    physical = no_transform;
    head = no_transform;
    right_hand = no_transform;
    left_hand = no_transform;
    virtuals = [];
  }

  unfoldable pub pose_signature : ClientPoseBody W → List ℕ
  unfolding serialize_client_pose
  pose_signature body =
      serialize_client_pose (record { device_id = []; body = record body { pose_seq = 0 } })

  -- What there is to send: a stealth client has only the handshake.
  abbrev pub outgoing_body : Client W → Option (ClientPoseBody W)
  outgoing_body c =
      if c.config.stealth_mode
      then some (record empty_body { flags = pose_flag_stealth })
      else c.local_pose

  -- The two early returns of send_local_pose_if_due behind the choice of the body.
  unfoldable pub pose_step : W → ClientPoseBody W → Client W → PoseStep
  unfolding pose_signature send_interval
  pose_step now body c =
      if d.lt (now ⊖ c.last_pose_send_time) (send_interval c.config.transform_send_rate)
      then too_early
      else if is_unchanged (pose_signature body) c.last_pose_signature
          && d.lt (now ⊖ c.last_pose_change_send_time) unit
      then stay_quiet
      else send_now

  unfoldable pub pose_payload : ClientPoseBody W → Client W → List ℕ
  unfolding serialize_client_pose
  pose_payload body c = serialize_client_pose (record {
    device_id = c.config.device_id;
    body = record body { pose_seq = suc c.local_pose_seq % 2 ^ 16 };
  })

  abbrev pub take_step : PoseStep → W → ClientPoseBody W → Client W → Client W
  take_step too_early now body c = c
  take_step stay_quiet now body c = record c { last_pose_send_time = now }
  take_step send_now now body c = record (command (latest_transform (pose_payload body c)) c).1 {
    local_pose_seq = suc c.local_pose_seq % 2 ^ 16;
    last_pose_send_time = now;
    last_pose_change_send_time = now;
    last_pose_signature = some (pose_signature body);
  }

  unfoldable pub send_pose : W → Option (ClientPoseBody W) → Client W → Client W
  unfolding pose_signature pose_step pose_payload
  send_pose now none c = c
  send_pose now (some body) c = take_step (pose_step now body c) now body c

  unfoldable pub send_local_pose_if_due : W → Bool → Client W → Client W
  unfolding send_pose
  send_local_pose_if_due now up c = if not up then c else send_pose now (outgoing_body c) c

  abbrev pub process_all : (List ℕ → List ℕ) → List (List ℕ) → Client W → Step W
  process_all format_number [] c = ([], c)
  process_all format_number (payload ∷ rest) c =
      process_control_payload format_number payload c ▸ process_all format_number rest

  -- The inboxes are swapped out, and then worked off.
  unfoldable pub drain_inbound : (List ℕ → List ℕ) → Client W → Step W
  unfolding process_control_payload process_room_pose process_room_objects ◌▸◌
  drain_inbound format_number c =
      when_some c.latest_room_pose process_room_pose
        (record c { control_inbox = []; latest_room_pose = none; latest_room_objects = none })
      ▸ process_all format_number c.control_inbox
      ▸ when_some c.latest_room_objects process_room_objects

  unfoldable pub flush_rpcs : Instant W → Client W → Client W
  unfolding with_rpc is_ready
  flush_rpcs now c =
      (with_rpc
        (Rpc.flush_pending now.rpc_milliseconds (is_ready now.up_at_flush c)
          c.mapping.local_client_no c.config.device_id)
        c).1

  unfoldable pub flush_objects : W → Client W → Client W
  unfolding with_objects
  flush_objects now c =
      let (sent, c') = with_objects (Objects.tick now c.config.transform_send_rate) c in
      hand_over sent c'

  -- What goes out: variables, RPCs, the pose, the objects.
  unfoldable pub flush_outbound : Instant W → Client W → Client W
  unfolding flush_variables flush_rpcs flush_objects send_local_pose_if_due check_timeout
  flush_outbound now c = check_timeout now.milliseconds (
      flush_objects now.seconds (
        send_local_pose_if_due now.seconds now.up_at_pose
          (flush_rpcs now (flush_variables now.milliseconds c))))

  -- What poll does before it looks at its readiness.
  unfoldable pub work : (List ℕ → List ℕ) → Instant W → Client W → Step W
  unfolding drain_internal_events greet drain_inbound flush_outbound ◌▸◌
  work format_number now c =
      drain_internal_events c
      ▸ greet now.milliseconds
      ▸ drain_inbound format_number
      ▸ (λ c'. quietly (flush_outbound now c'))

  unfoldable pub poll : (List ℕ → List ℕ) → Instant W → Client W → Step W
  unfolding work update_ready ◌▸◌
  poll format_number now c =
      if same_state c.state disconnected
      then ([], c)
      else work format_number now c ▸ update_ready now.up_at_ready

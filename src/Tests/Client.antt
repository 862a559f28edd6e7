-- ===== src/Tests/Client.antt =====
-- Runs of NetSyncClient in src/core/netsync_client.cpp.
use styly_net_sync_godot.Base.{
  ℕ, ◌^◌, ◌≤◌, ◌<◌, ◌≡◌, refl, true, false, none, some, List, [], ◌∷◌, ◌++◌, length, map, arith,
  suc,
}
use styly_net_sync_godot.Base.Int.{ℤ, pos, eq_ℤ}
use styly_net_sync_godot.Base.Keys.{int_key}
use styly_net_sync_godot.Base.Dict.{lookup}
use styly_net_sync_godot.Wire.Writer.{write_u8, write_u16, write_string8, write_string16}
use styly_net_sync_godot.Wire.Utf8.{truncate_utf8_bytes, is_continuation}
use styly_net_sync_godot.Protocol.Begin.{peek_message_type}
use styly_net_sync_godot.Protocol.Session.{serialize_rpc}
use styly_net_sync_godot.Protocol.Ownership.{
  serialize_object_ownership_request, ownership_op_request,
}
use styly_net_sync_godot.Protocol.Pose.Double.{◌⊖◌}
use styly_net_sync_godot.Protocol.Pose.Messages.{serialize_room_pose}
use styly_net_sync_godot.Protocol.Pose.MessagesRoundTrip.{received_client}
use styly_net_sync_godot.Core.Json.{encode_json_string_array}
use styly_net_sync_godot.Core.Link.{client_number}
use styly_net_sync_godot.Core.Rpc.Manager.{rpc_payload}
use styly_net_sync_godot.Core.Variables.Manager as VariablesCore
use styly_net_sync_godot.Core.Objects as ObjectsCore
use styly_net_sync_godot.Core.Objects.{long_ago, send_interval}
use styly_net_sync_godot.Core.Client.{
  Client, ClientConfig, disconnected, synchronizing, ready, rpc_received, is_ready, has_handshake,
  connect, ◌▸◌, set_state, with_variables, with_rpc, with_objects,
}
use styly_net_sync_godot.Core.Client.Inbox.{
  control_inbox_max, handle_payload, newest, receive_all, receive_all-newest,
}
use styly_net_sync_godot.Core.Client.Dispatch.{process_control_payload, process_room_pose}
use styly_net_sync_godot.Core.Client.Poll.{
  Instant, work, drain_internal_events, notify_all, greet, drain_inbound, flush_outbound,
  flush_variables, flush_rpcs, flush_objects, check_timeout, poll, update_ready, empty_body,
  send_local_pose_if_due,
}
use styly_net_sync_godot.Core.Client.Calls.{request_object_ownership}
use styly_net_sync_godot.Core.Client.Readiness.{transition, update_ready-transition}
use styly_net_sync_godot.Core.Client.Announced.{
  Turn, arrives, polls, take_turn, take_turns, announces, take_turns-announces,
}
use styly_net_sync_godot.Transport.Receive.{control}
use styly_net_sync_godot.Core.Client.Timeout.{poll-times_out}
use styly_net_sync_godot.Core.Client.Delivery.{process_control_payload-rpc}
use styly_net_sync_godot.Core.Client.Early.{request_object_ownership-before_hello}
use styly_net_sync_godot.Core.Client.Rooms.{last_pose, process_room_pose-poses}
use styly_net_sync_godot.Core.Client.PosePace.{send_local_pose-spaced}
use styly_net_sync_godot.Tests.Fixed.{fixed_double}
use styly_net_sync_godot.Tests.Variables as Variables
use styly_net_sync_godot.Tests.Rpc as Rpc
use styly_net_sync_godot.Tests.Mapping as Mapping
use styly_net_sync_godot.Tests.Objects as Objects
use styly_net_sync_godot.Tests.Pose as Pose

abbrev config : ClientConfig ℤ
config = record {
  server_address = 104 ∷ [];
  control_port = pos 5555;
  transform_port = pos 5557;
  sub_port = pos 5556;
  discovery_port = pos 9999;
  room_id = 114 ∷ [];
  device_id = 100 ∷ [];
  stealth_mode = false;
  transform_send_rate = pos 10_000;
  enable_discovery = false;
}

-- A client that has its number and waits for the snapshot of its room.
abbrev waiter : Client ℤ
waiter = record {
  config = config;
  resolved_address = config.server_address;
  discovered_rest_api_port = 0;
  link = record { answer = some (λ n payload. true); calls = 0; sent = [] };
  starts = λ n. true;
  commands = [];
  mapping = record Mapping.mapping { local_client_no = pos 1 };
  rpc_manager = Rpc.manager [];
  variables = record Variables.manager { has_received_initial_sync = false };
  objects = Objects.table;
  state = synchronizing;
  ready_fired = false;
  version_checked = true;
  hello_enqueued = true;
  control_inbox = [];
  latest_room_pose = none;
  latest_room_objects = none;
  control_inbox_dropped = 0;
  notifications = [];
  local_pose = some empty_body;
  local_pose_seq = 0;
  last_pose_send_time = long_ago;
  last_pose_change_send_time = long_ago;
  last_pose_signature = none;
  remote_poses = [];
  last_room_broadcast_time = 0;
}

-- Past the two seconds after the connection at 500.
abbrev late : Instant ℤ
late = record {
  seconds = pos 10_000;
  milliseconds = 2500;
  rpc_milliseconds = 2500;
  up_at_flush = true;
  up_at_pose = true;
  up_at_ready = true;
}

abbrev digits : List ℕ → List ℕ
digits text = text

receive_all-newest_example :
    let c = receive_all ((1 ∷ []) ∷ (2 ∷ []) ∷ []) waiter in
    (c.control_inbox ≡ newest ([] ++ ((1 ∷ []) ∷ (2 ∷ []) ∷ [])))
    × (length c.control_inbox ≤ control_inbox_max)
receive_all-newest_example = receive_all-newest ((1 ∷ []) ∷ (2 ∷ []) ∷ []) waiter (omega arith)

update_ready-transition_example :
    let c = record waiter { variables = Variables.manager } in
    let (events, c') = update_ready true c in
    let (es, state, fired) =
      transition c.state (is_ready true c) c.ready_fired c.mapping.local_client_no in
    (events ≡ es)
    × (c'.state ≡ state)
    × (c'.ready_fired ≡ fired)
    × (c'.mapping ≡ c.mapping)
    × (c'.variables ≡ c.variables)
update_ready-transition_example =
    update_ready-transition true (record waiter { variables = Variables.manager })

shook : has_handshake waiter ≡ true
unfolding has_handshake
shook = refl

poll-times_out_example :
    let (events, c') = poll digits late waiter in
    (c'.state ≡ ready)
    × (events ≡ (transition synchronizing true false (pos 1)).0)
    × (c'.ready_fired ≡ true)
poll-times_out_example =
    poll-times_out digits late waiter refl shook refl refl refl refl refl (omega arith) refl

timed_out : (poll digits late waiter).1.state ≡ ready
timed_out =
    (poll-times_out digits late waiter refl shook refl refl refl refl refl (omega arith) refl).0

-- An empty message arrives, a first poll is too early, and a second one is past the timeout.
abbrev waits : List (Turn ℤ)
waits = arrives control [] ∷ polls (record late { milliseconds = 600 }) ∷ []

ready_at_last : (poll digits late (take_turns digits waits waiter).1).1.state ≡ ready
unfolding poll work drain_internal_events notify_all greet drain_inbound ◌▸◌ take_turns take_turn
    handle_payload process_control_payload peek_message_type flush_outbound flush_variables
    flush_rpcs flush_objects send_local_pose_if_due check_timeout update_ready is_ready
    has_handshake set_state with_variables with_rpc with_objects ObjectsCore.tick
    VariablesCore.check_initial_sync_timeout VariablesCore.tick
ready_at_last = refl

take_turns-announces_example :
    let (events, before) = take_turns digits waits waiter in
    let (more, after) = poll digits late before in
    (is_ready true after ≡ true) × (announces (events ++ more) ≡ true)
take_turns-announces_example = take_turns-announces digits waits late waiter refl ready_at_last

call-length :
    length (rpc_payload (pos 3) (100 ∷ []) (1 ∷ []) (104 ∷ 105 ∷ []) ((97 ∷ []) ∷ []) ++ [])
    < 2 ^ 64
unfolding rpc_payload serialize_rpc encode_json_string_array write_u8 write_u16 write_string8
    write_string16 truncate_utf8_bytes is_continuation
call-length = omega arith

arguments-length : length (encode_json_string_array ((97 ∷ []) ∷ [])) ≤ 65535
unfolding encode_json_string_array
arguments-length = omega arith

process_control_payload-rpc_example :
    process_control_payload digits
      (rpc_payload (pos 3) (100 ∷ []) (1 ∷ []) (104 ∷ 105 ∷ []) ((97 ∷ []) ∷ []) ++ [])
      waiter
    ≡ (rpc_received (pos (client_number (pos 3))) (104 ∷ 105 ∷ []) ((97 ∷ []) ∷ []) ∷ [], waiter)
process_control_payload-rpc_example =
    process_control_payload-rpc digits waiter (pos 3) (100 ∷ []) (1 ∷ []) (104 ∷ 105 ∷ [])
      ((97 ∷ []) ∷ []) [] (omega arith) (omega arith) (omega arith, tt) (omega arith)
      arguments-length call-length

abbrev idle : Client ℤ
idle = record waiter { state = disconnected }

request_object_ownership-before_hello_example :
    let c1 = (connect config idle).1 in
    let c2 = (request_object_ownership 5 c1).1 in
    ((connect config idle).0 ≡ true)
    × (c1.link.sent ≡ [])
    × (c2.hello_enqueued ≡ false)
    × (c2.link.sent
        ≡ []
          ++ (serialize_object_ownership_request (record {
            device_id = 100 ∷ [];
            operation_type = ownership_op_request;
            object_id = 5;
          })
              ∷ []))
request_object_ownership-before_hello_example =
    request_object_ownership-before_hello config idle 104 [] 5 refl refl refl (λ n payload. refl)

process_room_pose-poses_example :
    let c' = (process_room_pose (serialize_room_pose Pose.room ++ Pose.tail) waiter).1 in
    (lookup (pos 3) c'.remote_poses
      ≡ last_pose (pos 1) (2 ^ 62) (pos 3) (map received_client Pose.room.clients) none)
    × (eq_ℤ (pos 1) (pos 0) ≡ false → lookup (pos 1) c'.remote_poses ≡ none)
process_room_pose-poses_example =
    process_room_pose-poses (serialize_room_pose Pose.room ++ Pose.tail)
      (record Pose.room { clients = map received_client Pose.room.clients }) waiter (pos 3)
      Pose.room_arrives refl

sends :
    length (send_local_pose_if_due (pos 10_000) true waiter).commands ≡ suc (length waiter.commands)
unfolding send_local_pose_if_due send_interval
sends = refl

soon : fixed_double.lt (pos 10_099 ⊖ pos 10_000) (send_interval (pos 10_000)) ≡ true
unfolding send_interval
soon = refl

send_local_pose-spaced_example :
    let c' = send_local_pose_if_due (pos 10_000) true waiter in
    send_local_pose_if_due (pos 10_099) true (record c' { local_pose = none })
    ≡ record c' { local_pose = none }
send_local_pose-spaced_example =
    send_local_pose-spaced (pos 10_000) (pos 10_099) true true waiter none sends soon

-- ===== src/Tests/Transport.antt =====
-- Runs of ZmqTransport in src/transport/zmq_transport.cpp.
use styly_net_sync_godot.Base.{
  ℕ, ◌≤◌, ◌≡◌, ◌↔◌, refl, arith, true, false, ◌&&◌, none, some, List, [], ◌∷◌, ◌++◌, length, map,
}
use styly_net_sync_godot.Transport.Topics.{
  is_avatar_topic, is_object_topic, object_topic_suffix, room_topics,
}
use styly_net_sync_godot.Transport.Outbox.{
  OutboundPacket, Socket, Transport, control_outbox_max, control_drain_batch, control_queue,
  drain_control_sends, set_latest_transform, try_send_multipart, try_send_latest_transform,
}
use styly_net_sync_godot.Transport.Control.{alive, drain_control_sends-Drained}
use styly_net_sync_godot.Transport.Latest.{KeepsLatest, try_send_latest_transform-KeepsLatest}
use styly_net_sync_godot.Transport.Receive.{
  room_pose, room_objects, Received, receive_sub, receive_control, frames_of, newest, count,
  for_avatar, for_object, deliver, drops, receive_sub-newest, for_room, receive_control-delivers,
}
use styly_net_sync_godot.Transport.Bounds.{enqueues, drains, sends_latest, run, run-le}

abbrev packet : OutboundPacket
packet = record { payload = 1 ∷ 2 ∷ []; enqueued_at = 1000 }

abbrev stale : OutboundPacket
stale = record { payload = 9 ∷ []; enqueued_at = 10 }

abbrev socket : Socket
socket = record {
  polls_out = λ n. true;
  takes_first = λ n. true;
  takes_second = λ n. true;
  calls = 0;
  sent = [];
}

abbrev transport : Transport
transport = record {
  should_stop = false;
  running = true;
  connection_error = false;
  control_outbox = packet ∷ [];
  latest_transform = some packet;
  latest_object_transforms = [];
  pending_control = some stale;
  would_block_count = 0;
  control_dropped_full = 0;
  control_dropped_expired = 0;
  messages_sent = 0;
}

abbrev topic : List ℕ
topic = 97 ∷ 98 ∷ []

abbrev room_id : List ℕ
room_id = 97 ∷ []

room_topics_example :
    ((is_avatar_topic (some topic) room_id ≡ true) ↔ (topic ≡ room_id))
    × ((is_object_topic (some topic) room_id ≡ true) ↔ (topic ≡ room_id ++ object_topic_suffix))
    × ((is_avatar_topic (some topic) room_id && is_object_topic (some topic) room_id) ≡ false)
room_topics_example = room_topics topic room_id

drain_control_sends-Drained_example :
    let r = drain_control_sends 5500 socket transport in
    (out : List OutboundPacket) × (r.1.sent ≡ [] ++ map (λ p. p.payload) out)
    × (alive 5500 (control_queue transport) ≡ out ++ alive 5500 (control_queue r.2))
    × (length out ≤ control_drain_batch)
drain_control_sends-Drained_example = drain_control_sends-Drained 5500 socket transport

run-le_example :
    length
      (run
        (enqueues 1000 (3 ∷ []) ∷ drains 1500 socket ∷ sends_latest socket ∷ [])
        transport).control_outbox
    ≤ control_outbox_max
run-le_example =
    run-le (enqueues 1000 (3 ∷ []) ∷ drains 1500 socket ∷ sends_latest socket ∷ []) transport
      (omega arith)

try_send_latest_transform-KeepsLatest_example :
    let r = try_send_latest_transform (set_latest_transform 2000 (7 ∷ [])) socket transport in
    KeepsLatest
      (set_latest_transform 2000
        (7 ∷ [])
        (try_send_multipart (1 ∷ 2 ∷ []) socket transport).2).latest_transform
      r.2.latest_transform
      []
      r.1.sent
try_send_latest_transform-KeepsLatest_example =
    try_send_latest_transform-KeepsLatest (set_latest_transform 2000 (7 ∷ [])) packet socket
      transport refl

abbrev messages : List (List ℕ × List ℕ)
messages = (room_id, 1 ∷ []) ∷ (topic, 2 ∷ []) ∷ (room_id, 3 ∷ []) ∷ []

abbrev nothing : Received
nothing = record { payloads = []; messages_received = 0; dropped_transform_frames = 0 }

receive_sub-newest_example :
    receive_sub room_id (frames_of messages) nothing
    ≡ deliver room_objects (newest (for_object room_id) none messages) (
        deliver room_pose (newest (for_avatar room_id) none messages) (record nothing {
          dropped_transform_frames = drops (count (for_avatar room_id) messages) 0;
        }))
receive_sub-newest_example = receive_sub-newest room_id messages nothing

receive_control-delivers_example :
    (receive_control room_id (frames_of messages) nothing).payloads
    ≡ [] ++ for_room room_id messages
receive_control-delivers_example = receive_control-delivers room_id messages nothing

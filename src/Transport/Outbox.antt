-- ===== src/Transport/Outbox.antt =====
-- The outgoing state of ZmqTransport in src/transport/zmq_transport.*. Each call of the game thread
-- that takes the mutex is one step; what it does before it, reading the atomics, is the same step.
-- Times are whole milliseconds.
use styly_net_sync_godot.Base.{
  ℕ, zero, suc, ◌+◌, ◌%◌, ◌^◌, Bool, true, false, not, ◌||◌, Option, none, some, List, [], ◌∷◌,
  ◌++◌, ltb, leb, ◌==◌, if◌then◌else◌, length,
}
use styly_net_sync_godot.Base.Keys.{nat_key, bytes_eq}
use styly_net_sync_godot.Base.Dict.{Dict, lookup, insert, erase}

abbrev pub control_outbox_max : ℕ
control_outbox_max = 256

abbrev pub control_ttl : ℕ
control_ttl = 5000

abbrev pub control_drain_batch : ℕ
control_drain_batch = 64

pub record OutboundPacket : Type 0 where
  pub payload : List ℕ
  pub enqueued_at : ℕ

-- A socket of libzmq: whether each call of `zmq_poll` and each first and second frame of
-- `zmq_send` succeeds, by the number of the call, and the payloads of the complete messages.
pub record Socket : Type 0 where
  pub polls_out : ℕ → Bool
  pub takes_first : ℕ → Bool
  pub takes_second : ℕ → Bool
  pub calls : ℕ
  pub sent : List (List ℕ)

-- A flag with the slot that it guards is an Option.
pub record Transport : Type 0 where
  pub should_stop : Bool
  pub running : Bool
  pub connection_error : Bool
  pub control_outbox : List OutboundPacket
  pub latest_transform : Option OutboundPacket
  pub latest_object_transforms : Dict ℕ OutboundPacket
  pub pending_control : Option OutboundPacket
  pub would_block_count : ℕ
  pub control_dropped_full : ℕ
  pub control_dropped_expired : ℕ
  pub messages_sent : ℕ

abbrev pub is_unusable : Transport → Bool
is_unusable t = t.should_stop || (t.connection_error || not t.running)

unfoldable pub try_enqueue_control : ℕ → List ℕ → Transport → Bool × Transport
try_enqueue_control now payload t =
    if is_unusable t
    then (false, t)
    else if leb control_outbox_max (length t.control_outbox)
    then (false, record t { control_dropped_full = suc t.control_dropped_full % 2 ^ 64 })
    else let packet : OutboundPacket = record { payload = payload; enqueued_at = now } in
      (true, record t { control_outbox = t.control_outbox ++ (packet ∷ []) })

unfoldable pub set_latest_transform : ℕ → List ℕ → Transport → Transport
set_latest_transform now payload t =
    if is_unusable t
    then t
    else record t { latest_transform = some (record { payload = payload; enqueued_at = now }) }

unfoldable pub set_latest_object_transform : ℕ → ℕ → List ℕ → Transport → Transport
set_latest_object_transform now object_id payload t =
    if object_id == 0 then t else if is_unusable t then t else record t {
      latest_object_transforms =
          insert object_id (record { payload = payload; enqueued_at = now })
            t.latest_object_transforms;
    }

unfoldable pub clear_outgoing : Transport → Transport
clear_outgoing t = record t {
  control_outbox = [];
  latest_transform = none;
  latest_object_transforms = [];
  pending_control = none;
}

abbrev next_call : Socket → Socket
next_call socket = record socket { calls = suc socket.calls }

unfoldable pub try_send_multipart : List ℕ → Socket → Transport → Bool × Socket × Transport
try_send_multipart payload socket t =
    if not (socket.polls_out socket.calls)
    then (false, next_call socket, t)
    else if not (socket.takes_first socket.calls)
    then (false, next_call socket, t)
    else if not (socket.takes_second socket.calls)
    then (false, next_call socket, record t { connection_error = true })
    else (
      true,
      record (next_call socket) { sent = socket.sent ++ (payload ∷ []) },
      record t { messages_sent = suc t.messages_sent % 2 ^ 64 },
    )

abbrev blocked : Transport → Transport
blocked t = record t { would_block_count = suc t.would_block_count % 2 ^ 64 }

-- The loop of drain_control_sends. The queue is the packet held back, if there is one, and the
-- outbox behind it: a packet is taken off the outbox only when none is held.
unfoldable pub drain_loop :
    ℕ → ℕ → List OutboundPacket → Bool → Socket → Transport → Bool × Socket × Transport
drain_loop now left [] did_work socket t =
    (did_work, socket, record t { control_outbox = []; pending_control = none })
drain_loop now zero (packet ∷ queue) did_work socket t =
    (did_work, socket, record t { control_outbox = packet ∷ queue; pending_control = none })
drain_loop now (suc left) (packet ∷ queue) did_work socket t =
    let expired =
      drain_loop now (suc left) queue did_work socket
        (record t { control_dropped_expired = suc t.control_dropped_expired % 2 ^ 64 }) in
    let (ok, socket', t') = try_send_multipart packet.payload socket t in
    let next = drain_loop now left queue true socket' t' in
    if ltb (packet.enqueued_at + control_ttl) now then expired else if ok then next else (
      did_work,
      socket',
      record (blocked t') { control_outbox = queue; pending_control = some packet },
    )

abbrev pub held : Option OutboundPacket → List OutboundPacket
held none = []
held (some packet) = packet ∷ []

-- What waits on the control lane, oldest first.
unfoldable pub control_queue : Transport → List OutboundPacket
control_queue t = held t.pending_control ++ t.control_outbox

unfoldable pub drain_control_sends : ℕ → Socket → Transport → Bool × Socket × Transport
drain_control_sends now socket t =
    drain_loop now control_drain_batch (control_queue t) false socket t

-- `has_latest_transform_ && latest_transform_.payload == payload` clears the slot.
abbrev pub clear_sent : List ℕ → Option OutboundPacket → Option OutboundPacket
clear_sent payload none = none
clear_sent payload (some packet) = if bytes_eq packet.payload payload then none else some packet

-- The steps of the game thread while a packet is being sent.
abbrev pub Meanwhile : Type 0
Meanwhile = Transport → Transport

abbrev pub after_latest : Meanwhile → List ℕ → Bool × Socket × Transport → Bool × Socket × Transport
after_latest meanwhile payload (false, socket, t) = (false, socket, blocked (meanwhile t))
after_latest meanwhile payload (true, socket, t) =
    let t' = meanwhile t in
    (true, socket, record t' { latest_transform = clear_sent payload t'.latest_transform })

abbrev pub send_slot :
    Meanwhile → Option OutboundPacket → Socket → Transport → Bool × Socket × Transport
send_slot meanwhile none socket t = (false, socket, t)
send_slot meanwhile (some packet) socket t =
    after_latest meanwhile packet.payload (try_send_multipart packet.payload socket t)

unfoldable pub try_send_latest_transform :
    Meanwhile → Socket → Transport → Bool × Socket × Transport
try_send_latest_transform meanwhile socket t = send_slot meanwhile t.latest_transform socket t

abbrev pub clear_object :
    ℕ → List ℕ → Option OutboundPacket → Dict ℕ OutboundPacket → Dict ℕ OutboundPacket
clear_object object_id payload none table = table
clear_object object_id payload (some packet) table =
    if bytes_eq packet.payload payload then erase object_id table else table

-- One round of the loop over the objects; false where it breaks off.
abbrev pub after_object :
    Meanwhile → ℕ → List ℕ → Bool × Socket × Transport → Bool × Socket × Transport
after_object meanwhile object_id payload (false, socket, t) = (false, socket, blocked (meanwhile t))
after_object meanwhile object_id payload (true, socket, t) =
    let t' = meanwhile t in
    (
      true,
      socket,
      record t' {
        latest_object_transforms =
            clear_object object_id payload (lookup object_id t'.latest_object_transforms)
              t'.latest_object_transforms;
      },
    )

unfoldable pub send_object : Meanwhile → ℕ → List ℕ → Socket → Transport → Bool × Socket × Transport
send_object meanwhile object_id payload socket t =
    after_object meanwhile object_id payload (try_send_multipart payload socket t)

abbrev pub payload_at : Option OutboundPacket → List ℕ
payload_at none = []
payload_at (some packet) = packet.payload

unfoldable pub send_objects :
    Meanwhile → List ℕ → Bool → Socket → Transport → Bool × Socket × Transport
send_objects meanwhile [] did_work socket t = (did_work, socket, t)
send_objects meanwhile (object_id ∷ object_ids) did_work socket t =
    let here = lookup object_id t.latest_object_transforms in
    let (ok, socket', t') = send_object meanwhile object_id (payload_at here) socket t in
    let skipped = send_objects meanwhile object_ids did_work socket t in
    let next = send_objects meanwhile object_ids true socket' t' in
    elim here [ none ↦ skipped | some packet ↦ if ok then next else (did_work, socket', t') ]

abbrev pub ids_of : Dict ℕ OutboundPacket → List ℕ
ids_of [] = []
ids_of ((object_id, packet) ∷ table) = object_id ∷ ids_of table

unfoldable pub try_send_latest_object_transforms :
    Meanwhile → Socket → Transport → Bool × Socket × Transport
try_send_latest_object_transforms meanwhile socket t =
    send_objects meanwhile (ids_of t.latest_object_transforms) false socket t

-- flush_outgoing, with the control socket and the transform socket.
unfoldable pub flush_outgoing :
    ℕ → Meanwhile → Meanwhile → Socket → Socket → Transport → Bool × (Socket × Socket) × Transport
flush_outgoing now meanwhile meanwhile' control transform t =
    let (did, control', t') = drain_control_sends now control t in
    let (did', transform', t'') = try_send_latest_transform meanwhile transform t' in
    let (did'', transform'', t''') = try_send_latest_object_transforms meanwhile' transform' t'' in
    (did || (did' || did''), (control', transform''), t''')

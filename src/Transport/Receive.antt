-- ===== src/Transport/Receive.antt =====
-- The receiving side of ZmqTransport in src/transport/zmq_transport.cpp. A socket is the list of the
-- frames that `zmq_msg_recv` gives until it fails; the payload callback is the list of its calls.
use styly_net_sync_godot.Base.{
  ℕ, suc, ◌+◌, ◌-◌, ◌%◌, ◌^◌, ◌≡◌, refl, sym, ◌∙◌, arith, Bool, true, false, not, ◌&&◌, Option,
  none, some, List, [], ◌∷◌, ◌++◌, append-nil, append_assoc, ltb, if◌then◌else◌, Bool-cases, inl,
  inr,
}
use styly_net_sync_godot.Base.Keys.{bytes_eq}
use styly_net_sync_godot.Transport.Topics.{is_avatar_topic, is_object_topic}

-- A frame, without a data pointer or with its bytes, and whether the message goes on behind it.
pub record Frame : Type 0 where
  pub data_bytes : Option (List ℕ)
  pub more : Bool

abbrev pub bytes_of : Option (List ℕ) → List ℕ
bytes_of none = []
bytes_of (some bytes) = bytes

pub data TransportLane : Type 0 where
  control room_pose room_objects : TransportLane

-- The locals of receive_sub; a `got_` flag with what it guards is an Option.
pub record Newest : Type 0 where
  pub last_avatar : Option (List ℕ)
  pub last_object : Option (List ℕ)
  pub avatar_frames : ℕ

unfoldable pub take_frame : List ℕ → Option (List ℕ) → List ℕ → Newest → Newest
take_frame room_id topic payload s =
    if is_avatar_topic topic room_id
    then record s { last_avatar = some payload; avatar_frames = suc s.avatar_frames }
    else if is_object_topic topic room_id
    then record s { last_object = some payload }
    else s

-- The loop of receive_sub.
unfoldable pub sub_loop : List ℕ → List Frame → Newest → Newest
sub_loop room_id [] s = s
sub_loop room_id (topic ∷ []) s = s
sub_loop room_id (topic ∷ payload ∷ frames) s =
    let skipped = sub_loop room_id (payload ∷ frames) s in
    let taken =
      sub_loop room_id frames
        (take_frame room_id topic.data_bytes (bytes_of payload.data_bytes) s) in
    if not topic.more then skipped else taken

-- What a call of a receiving function does: the calls of the callback and the two counters.
pub record Received : Type 0 where
  pub payloads : List (TransportLane × List ℕ)
  pub messages_received : ℕ
  pub dropped_transform_frames : ℕ

abbrev pub deliver : TransportLane → Option (List ℕ) → Received → Received
deliver lane none r = r
deliver lane (some payload) r = record r {
  payloads = r.payloads ++ ((lane, payload) ∷ []);
  messages_received = suc r.messages_received % 2 ^ 64;
}

unfoldable pub receive_sub : List ℕ → List Frame → Received → Received
receive_sub room_id frames r =
    let s =
      sub_loop room_id frames
        (record { last_avatar = none; last_object = none; avatar_frames = 0 }) in
    let dropped =
      if ltb 1 s.avatar_frames
      then (r.dropped_transform_frames + (s.avatar_frames - 1)) % 2 ^ 64
      else r.dropped_transform_frames in
    deliver room_objects s.last_object
      (deliver room_pose s.last_avatar (record r { dropped_transform_frames = dropped }))

abbrev pub count_control : List ℕ → Option (List ℕ) → List ℕ → Received → Received
count_control room_id room payload r = record r {
  messages_received = suc r.messages_received % 2 ^ 64;
  payloads =
      if bytes_eq (bytes_of room) room_id
      then r.payloads ++ ((control, payload) ∷ [])
      else r.payloads;
}

unfoldable pub receive_control : List ℕ → List Frame → Received → Received
receive_control room_id [] r = r
receive_control room_id (room ∷ []) r = r
receive_control room_id (room ∷ payload ∷ frames) r =
    let skipped = receive_control room_id (payload ∷ frames) r in
    let taken =
      receive_control room_id frames
        (count_control room_id room.data_bytes (bytes_of payload.data_bytes) r) in
    if not room.more then skipped else taken

-- Messages of two frames, as the server sends them: a topic or room, and a payload.
abbrev pub frames_of : List (List ℕ × List ℕ) → List Frame
frames_of [] = []
frames_of ((topic, payload) ∷ messages) =
    record { data_bytes = some topic; more = true }
    ∷ record { data_bytes = some payload; more = false }
    ∷ frames_of messages

-- The payload of the last message whose topic passes a test, and the number of such messages.
abbrev pub newest : (List ℕ → Bool) → Option (List ℕ) → List (List ℕ × List ℕ) → Option (List ℕ)
newest test before [] = before
newest test before ((topic, payload) ∷ messages) =
    newest test (if test topic then some payload else before) messages

abbrev pub count : (List ℕ → Bool) → List (List ℕ × List ℕ) → ℕ
count test [] = 0
count test ((topic, payload) ∷ messages) =
    if test topic then suc (count test messages) else count test messages

abbrev pub for_avatar : List ℕ → List ℕ → Bool
for_avatar room_id topic = is_avatar_topic (some topic) room_id

abbrev pub for_object : List ℕ → List ℕ → Bool
for_object room_id topic = not (for_avatar room_id topic) && is_object_topic (some topic) room_id

zero_add : (n : ℕ) → 0 + n ≡ n
zero_add n = omega arith

sub_loop-newest :
    (room_id : List ℕ) (messages : List (List ℕ × List ℕ)) (s : Newest)
    → let s' = sub_loop room_id (frames_of messages) s in
      (s'.last_avatar ≡ newest (for_avatar room_id) s.last_avatar messages)
      × (s'.last_object ≡ newest (for_object room_id) s.last_object messages)
      × (s'.avatar_frames ≡ s.avatar_frames + count (for_avatar room_id) messages)
unfolding sub_loop take_frame
sub_loop-newest room_id [] s = (refl, refl, omega arith)
sub_loop-newest room_id ((topic, payload) ∷ messages) s =
    elim (Bool-cases (is_avatar_topic (some topic) room_id)) [
      | inl avatar ↦
          let (a, o, n) =
            sub_loop-newest room_id messages
              (record s { last_avatar = some payload; avatar_frames = suc s.avatar_frames }) in
          rw avatar (a, o, omega (arith, n))
      | inr other ↦ elim (Bool-cases (is_object_topic (some topic) room_id)) [
        | inl object ↦
            let (a, o, n) =
              sub_loop-newest room_id messages (record s { last_object = some payload }) in
            rw (other, object) (a, o, n)
        | inr foreign ↦ rw (other, foreign) (sub_loop-newest room_id messages s)
      ]
    ]

abbrev pub drops : ℕ → ℕ → ℕ
drops avatars before = if ltb 1 avatars then (before + (avatars - 1)) % 2 ^ 64 else before

-- One drain of the subscription delivers at most the newest avatar pose and the newest object pose
-- among the messages of the room, in this order, and ignores those of other rooms; it counts the
-- other avatar poses as dropped and the delivered payloads as received, if every message that waits
-- has a topic and a payload frame.
pub receive_sub-newest :
    (room_id : List ℕ) (messages : List (List ℕ × List ℕ)) (r : Received)
    → receive_sub room_id (frames_of messages) r
      ≡ deliver room_objects (newest (for_object room_id) none messages) (
          deliver room_pose (newest (for_avatar room_id) none messages) (record r {
            dropped_transform_frames =
                drops (count (for_avatar room_id) messages) r.dropped_transform_frames;
          }))
unfolding receive_sub
receive_sub-newest room_id messages r =
    let (a, o, n) =
      sub_loop-newest room_id messages
        (record { last_avatar = none; last_object = none; avatar_frames = 0 }) in
    let total : _ ≡ count (for_avatar room_id) messages =
      n ∙ zero_add (count (for_avatar room_id) messages) in
    rw (a, o, total)

-- The payloads of the messages that the room's control lane delivers.
abbrev pub for_room : List ℕ → List (List ℕ × List ℕ) → List (TransportLane × List ℕ)
for_room room_id [] = []
for_room room_id ((room, payload) ∷ messages) =
    if bytes_eq room room_id
    then (control, payload) ∷ for_room room_id messages
    else for_room room_id messages

-- One drain of the control lane delivers the payload of every message for the room, in their order,
-- and no other, if every message that waits has a room and a payload frame.
pub receive_control-delivers :
    (room_id : List ℕ) (messages : List (List ℕ × List ℕ)) (r : Received)
    → (receive_control room_id (frames_of messages) r).payloads
      ≡ r.payloads ++ for_room room_id messages
unfolding receive_control
receive_control-delivers room_id [] r = sym (append-nil r.payloads)
receive_control-delivers room_id ((room, payload) ∷ messages) r =
    receive_control-delivers room_id messages (count_control room_id (some room) payload r)
    ∙ elim (Bool-cases (bytes_eq room room_id)) [
      | inl here ↦
          rw here (append_assoc r.payloads ((control, payload) ∷ []) (for_room room_id messages))
      | inr elsewhere ↦ rw elsewhere
    ]

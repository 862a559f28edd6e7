-- ===== src/Protocol/Pose/Messages.antt =====
-- The client pose and room pose messages of src/protocol/protocol_v8.*.
use styly_net_sync_godot.Base.{ℕ, ◌%◌, ◌^◌, true, Option, List, [], ◌∷◌, concat, map, length}
use styly_net_sync_godot.Wire.Writer.{write_u8, write_u16, write_f64, write_string8}
use styly_net_sync_godot.Wire.Reader.{read_u16, read_f64, read_string8}
use styly_net_sync_godot.Wire.Decode.{Decode, ◌>>=◌, ◌>>◌, pure, field, check_ok, repeat, decode}
use styly_net_sync_godot.Protocol.Begin.{
  protocol_version, msg_client_pose, msg_room_pose, begin_message,
}
use styly_net_sync_godot.Protocol.Pose.Double.{Double}
use styly_net_sync_godot.Protocol.Pose.Flags.{pose_flag_stealth, encoding_flags_default}
use styly_net_sync_godot.Protocol.Pose.Body.{ClientPoseBody, write_pose_body, read_pose_body}

pub record ClientPoseMessage (W : Type 0) : Type 0 where
  pub device_id : List ℕ
  pub body : ClientPoseBody W

-- The times are bit patterns: no arithmetic is done on them here.
pub record RoomPoseClient (W : Type 0) : Type 0 where
  pub client_no : ℕ
  pub pose_time : ℕ
  pub body : ClientPoseBody W

pub record RoomPoseMessage (W : Type 0) : Type 0 where
  pub room_id : List ℕ
  pub broadcast_time : ℕ
  pub clients : List (RoomPoseClient W)

unfoldable pub serialize_stealth_handshake_pose : List ℕ → List ℕ
serialize_stealth_handshake_pose device_id = concat (
    write_u8 msg_client_pose
    ∷ write_u8 protocol_version
    ∷ write_string8 device_id
    ∷ write_u16 0
    ∷ write_u8 pose_flag_stealth
    ∷ write_u8 encoding_flags_default
    ∷ write_u8 0
    ∷ [])

module _ {W : Type 0} ⦃d : Double W⦄ where
  unfoldable pub serialize_client_pose : ClientPoseMessage W → List ℕ
  unfolding write_pose_body
  serialize_client_pose m = concat (
      write_u8 msg_client_pose
      ∷ write_u8 protocol_version
      ∷ write_string8 m.device_id
      ∷ write_pose_body m.body
      ∷ [])

  unfoldable pub client_pose_fields : Decode (ClientPoseMessage W)
  unfolding read_pose_body
  client_pose_fields = do
    begin_message msg_client_pose true
    device_id ← field read_string8
    check_ok
    body ← read_pose_body
    pure (record { device_id = device_id; body = body })

  unfoldable pub deserialize_client_pose : List ℕ → Option (ClientPoseMessage W)
  deserialize_client_pose = decode client_pose_fields

  unfoldable pub write_room_pose_client : RoomPoseClient W → List ℕ
  unfolding write_pose_body
  write_room_pose_client client =
      concat
        (write_u16 client.client_no ∷ write_f64 client.pose_time ∷ write_pose_body client.body ∷ [])

  unfoldable pub serialize_room_pose : RoomPoseMessage W → List ℕ
  unfolding write_room_pose_client
  serialize_room_pose m = concat (
      write_u8 msg_room_pose
      ∷ write_u8 protocol_version
      ∷ write_string8 m.room_id
      ∷ write_f64 m.broadcast_time
      ∷ write_u16 (length m.clients % 2 ^ 16)
      ∷ concat (map write_room_pose_client m.clients)
      ∷ [])

  unfoldable pub read_room_pose_client : Decode (RoomPoseClient W)
  unfolding read_pose_body
  read_room_pose_client = do
    client_no ← field read_u16
    pose_time ← field read_f64
    check_ok
    body ← read_pose_body
    pure (record { client_no = client_no; pose_time = pose_time; body = body })

  unfoldable pub room_pose_fields : Decode (RoomPoseMessage W)
  unfolding read_room_pose_client
  room_pose_fields = do
    begin_message msg_room_pose true
    room_id ← field read_string8
    broadcast_time ← field read_f64
    client_count ← field read_u16
    check_ok
    clients ← repeat client_count read_room_pose_client
    check_ok
    pure (record { room_id = room_id; broadcast_time = broadcast_time; clients = clients })

  unfoldable pub deserialize_room_pose : List ℕ → Option (RoomPoseMessage W)
  deserialize_room_pose = decode room_pose_fields

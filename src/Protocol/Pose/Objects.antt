-- ===== src/Protocol/Pose/Objects.antt =====
-- The object pose and room objects messages of src/protocol/protocol_v8.*.
use styly_net_sync_godot.Base.{ℕ, ◌%◌, ◌^◌, true, Option, List, [], ◌∷◌, concat, map, length}
use styly_net_sync_godot.Wire.Writer.{
  write_u8, write_u16, write_u32, write_i24, write_f64, write_string8,
}
use styly_net_sync_godot.Wire.Reader.{read_u16, read_u32, read_i24, read_f64, read_string8}
use styly_net_sync_godot.Wire.Decode.{Decode, ◌>>=◌, ◌>>◌, pure, field, check_ok, repeat, decode}
use styly_net_sync_godot.Protocol.Begin.{
  protocol_version, msg_object_pose, msg_room_objects, begin_message,
}
use styly_net_sync_godot.Protocol.Pose.Double.{Double}
use styly_net_sync_godot.Protocol.Pose.Codec.{
  Vec3, Quat, vec3, abs_pos_scale, quantize_signed_int24, dequantize_signed,
}
use styly_net_sync_godot.Protocol.Pose.SmallestThree.{
  compress_quaternion_smallest_three, decompress_quaternion_smallest_three,
}

pub record ObjectPoseMessage (W : Type 0) : Type 0 where
  pub device_id : List ℕ
  pub object_id : ℕ
  pub pose_seq : ℕ
  pub position : Vec3 W
  pub rotation : Quat W

-- `pose_time` and `broadcast_time` are bit patterns.
pub record RoomObjectState (W : Type 0) : Type 0 where
  pub object_id : ℕ
  pub owner_client_no : ℕ
  pub pose_seq : ℕ
  pub pose_time : ℕ
  pub position : Vec3 W
  pub rotation : Quat W

pub record RoomObjectsMessage (W : Type 0) : Type 0 where
  pub broadcast_time : ℕ
  pub objects : List (RoomObjectState W)

module _ {W : Type 0} ⦃d : Double W⦄ where
  -- A position and a rotation, as both messages write and read them.
  unfoldable pub write_placement : Vec3 W → Quat W → List ℕ
  unfolding quantize_signed_int24 compress_quaternion_smallest_three
  write_placement position rotation = concat (
      write_i24 (quantize_signed_int24 position.x abs_pos_scale)
      ∷ write_i24 (quantize_signed_int24 position.y abs_pos_scale)
      ∷ write_i24 (quantize_signed_int24 position.z abs_pos_scale)
      ∷ write_u32 (compress_quaternion_smallest_three rotation)
      ∷ [])

  unfoldable pub read_placement : Decode (Vec3 W × Quat W)
  unfolding dequantize_signed decompress_quaternion_smallest_three
  read_placement = do
    px ← field read_i24
    py ← field read_i24
    pz ← field read_i24
    packed ← field read_u32
    check_ok
    pure (
      vec3 (dequantize_signed px abs_pos_scale) (dequantize_signed py abs_pos_scale)
          (dequantize_signed pz abs_pos_scale),
      decompress_quaternion_smallest_three packed,
    )

  unfoldable pub serialize_object_pose : ObjectPoseMessage W → List ℕ
  unfolding write_placement
  serialize_object_pose m = concat (
      write_u8 msg_object_pose
      ∷ write_u8 protocol_version
      ∷ write_string8 m.device_id
      ∷ write_u32 m.object_id
      ∷ write_u16 m.pose_seq
      ∷ write_placement m.position m.rotation
      ∷ [])

  unfoldable pub object_pose_fields : Decode (ObjectPoseMessage W)
  unfolding read_placement
  object_pose_fields = do
    begin_message msg_object_pose true
    device_id ← field read_string8
    object_id ← field read_u32
    pose_seq ← field read_u16
    placement ← read_placement
    pure (record {
      device_id = device_id;
      object_id = object_id;
      pose_seq = pose_seq;
      position = placement.0;
      rotation = placement.1;
    })

  unfoldable pub deserialize_object_pose : List ℕ → Option (ObjectPoseMessage W)
  deserialize_object_pose = decode object_pose_fields

  unfoldable pub write_room_object : RoomObjectState W → List ℕ
  unfolding write_placement
  write_room_object o = concat (
      write_u32 o.object_id
      ∷ write_u16 o.owner_client_no
      ∷ write_u16 o.pose_seq
      ∷ write_f64 o.pose_time
      ∷ write_placement o.position o.rotation
      ∷ [])

  unfoldable pub serialize_room_objects : RoomObjectsMessage W → List ℕ
  unfolding write_room_object
  serialize_room_objects m = concat (
      write_u8 msg_room_objects
      ∷ write_u8 protocol_version
      ∷ write_f64 m.broadcast_time
      ∷ write_u16 (length m.objects % 2 ^ 16)
      ∷ concat (map write_room_object m.objects)
      ∷ [])

  unfoldable pub read_room_object : Decode (RoomObjectState W)
  unfolding read_placement
  read_room_object = do
    object_id ← field read_u32
    owner_client_no ← field read_u16
    pose_seq ← field read_u16
    pose_time ← field read_f64
    placement ← read_placement
    pure (record {
      object_id = object_id;
      owner_client_no = owner_client_no;
      pose_seq = pose_seq;
      pose_time = pose_time;
      position = placement.0;
      rotation = placement.1;
    })

  unfoldable pub room_objects_fields : Decode (RoomObjectsMessage W)
  unfolding read_room_object
  room_objects_fields = do
    begin_message msg_room_objects true
    broadcast_time ← field read_f64
    object_count ← field read_u16
    check_ok
    objects ← repeat object_count read_room_object
    check_ok
    pure (record { broadcast_time = broadcast_time; objects = objects })

  unfoldable pub deserialize_room_objects : List ℕ → Option (RoomObjectsMessage W)
  deserialize_room_objects = decode room_objects_fields

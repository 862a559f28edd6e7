-- ===== src/Protocol/Pose/MessagesRoundTrip.antt =====
-- What the pose and object messages of src/protocol/protocol_v8.cpp read back: the parts that the
-- flags announce, quantised.
use styly_net_sync_godot.Base.{
  ℕ, ◌%◌, ◌^◌, ◌≤◌, ◌<◌, ◌≡◌, refl, true, some, List, ◌++◌, map, length, arith, All,
}
use styly_net_sync_godot.Wire.Writer.{write_u8, write_u16}
use styly_net_sync_godot.Wire.Decode.RoundTrip.{
  Reads, Reads-bind, Reads-then, Reads-pure, Reads-check_ok, Reads-u16, Reads-u32, Reads-f64,
  Reads-string8, Reads-repeat-map, Reads-decode,
}
use styly_net_sync_godot.Protocol.Begin.{
  msg_client_pose, msg_room_pose, msg_object_pose, msg_room_objects, Reads-begin_version,
}
use styly_net_sync_godot.Protocol.Pose.Double.{Double, IsIeee}
use styly_net_sync_godot.Protocol.Pose.Codec.{
  Vec3, Quat, vec3, abs_pos_scale, quantize_signed_int24, dequantize_signed,
}
use styly_net_sync_godot.Protocol.Pose.SmallestThree.{
  compress_quaternion_smallest_three, decompress_quaternion_smallest_three,
}
use styly_net_sync_godot.Protocol.Pose.Bounds.{clamp_i24-quantize_signed_int24, decompress-compress}
use styly_net_sync_godot.Protocol.Pose.Flags.{
  pose_flag_stealth, has_flag, sanitize_pose_flags, compute_encoding_flags,
}
use styly_net_sync_godot.Protocol.Pose.Body.{ClientPoseBody, write_pose_body}
use styly_net_sync_godot.Protocol.Pose.BodyRoundTrip.{
  Reads-exact_i24, received_body, Reads-pose_body,
}
use styly_net_sync_godot.Protocol.Pose.Messages.{
  ClientPoseMessage, RoomPoseClient, RoomPoseMessage, serialize_stealth_handshake_pose,
  serialize_client_pose, client_pose_fields, deserialize_client_pose, write_room_pose_client,
  serialize_room_pose, read_room_pose_client, room_pose_fields, deserialize_room_pose,
}
use styly_net_sync_godot.Protocol.Pose.Objects.{
  ObjectPoseMessage, RoomObjectState, RoomObjectsMessage, write_placement, read_placement,
  serialize_object_pose, object_pose_fields, deserialize_object_pose, write_room_object,
  serialize_room_objects, read_room_object, room_objects_fields, deserialize_room_objects,
}

-- What fits the fields of the wire.
pub record IsBody {W : Type 0} (body : ClientPoseBody W) : Type 0 where
  pub seq : body.pose_seq < 2 ^ 16
  pub flag_byte : body.flags < 2 ^ 8

pub record IsRoomClient {W : Type 0} (c : RoomPoseClient W) : Type 0 where
  pub number : c.client_no < 2 ^ 16
  pub time : c.pose_time < 2 ^ 64
  pub pose : IsBody c.body

pub record IsRoomPose {W : Type 0} (m : RoomPoseMessage W) : Type 0 where
  pub room : length m.room_id ≤ 255
  pub time : m.broadcast_time < 2 ^ 64
  pub count : length m.clients < 2 ^ 16
  pub each : All IsRoomClient m.clients

pub record IsObjectPose {W : Type 0} (m : ObjectPoseMessage W) : Type 0 where
  pub device : length m.device_id ≤ 255
  pub object : m.object_id < 2 ^ 32
  pub seq : m.pose_seq < 2 ^ 16

pub record IsRoomObject {W : Type 0} (o : RoomObjectState W) : Type 0 where
  pub object : o.object_id < 2 ^ 32
  pub owner : o.owner_client_no < 2 ^ 16
  pub seq : o.pose_seq < 2 ^ 16
  pub time : o.pose_time < 2 ^ 64

pub record IsRoomObjects {W : Type 0} (m : RoomObjectsMessage W) : Type 0 where
  pub time : m.broadcast_time < 2 ^ 64
  pub count : length m.objects < 2 ^ 16
  pub each : All IsRoomObject m.objects

module _ {W : Type 0} ⦃d : Double W⦄ where
  -- Where an object stands after its position and rotation were quantised.
  unfoldable pub received_position : Vec3 W → Vec3 W
  received_position p =
      vec3 (dequantize_signed (quantize_signed_int24 p.x abs_pos_scale) abs_pos_scale)
        (dequantize_signed (quantize_signed_int24 p.y abs_pos_scale) abs_pos_scale)
        (dequantize_signed (quantize_signed_int24 p.z abs_pos_scale) abs_pos_scale)

  unfoldable pub received_rotation : Quat W → Quat W
  received_rotation q = decompress_quaternion_smallest_three (compress_quaternion_smallest_three q)

  abbrev pub received_client : RoomPoseClient W → RoomPoseClient W
  received_client c = record c { body = received_body c.body }

  abbrev pub received_object : RoomObjectState W → RoomObjectState W
  received_object o = record o {
    position = received_position o.position;
    rotation = received_rotation o.rotation;
  }

  -- A client pose with the stealth flag and the sequence number 0 is the handshake of a stealth
  -- client, byte for byte, whatever else its flags and its transforms are.
  pub serialize_client_pose-stealth :
      (m : ClientPoseMessage W)
      → has_flag m.body.flags pose_flag_stealth ≡ true
      → m.body.pose_seq ≡ 0
      → serialize_client_pose m ≡ serialize_stealth_handshake_pose m.device_id
  unfolding serialize_client_pose serialize_stealth_handshake_pose write_pose_body
      sanitize_pose_flags compute_encoding_flags write_u16 write_u8
  serialize_client_pose-stealth m h e = rw (h, e) refl

module _ {W : Type 0} ⦃d : Double W⦄ (ieee : IsIeee W) where
  Reads-placement :
      (p : Vec3 W) (q : Quat W)
      → Reads read_placement (write_placement p q) (received_position p, received_rotation q)
  unfolding read_placement write_placement received_position received_rotation
  Reads-placement p q = Reads-bind _ (Reads-exact_i24 (clamp_i24-quantize_signed_int24 ieee _ _)) (
      Reads-bind _ (Reads-exact_i24 (clamp_i24-quantize_signed_int24 ieee _ _)) (
        Reads-bind _ (Reads-exact_i24 (clamp_i24-quantize_signed_int24 ieee _ _)) (
          Reads-bind _ (Reads-u32 _ (decompress-compress ieee _).0)
            (Reads-then Reads-check_ok (Reads-pure _)))))

  Reads-client_pose :
      (m : ClientPoseMessage W)
      → length m.device_id ≤ 255
      → IsBody m.body
      → Reads client_pose_fields
          (serialize_client_pose m)
          (record m { body = received_body m.body })
  unfolding client_pose_fields serialize_client_pose
  Reads-client_pose m hd hb = Reads-begin_version msg_client_pose (omega arith) (
      Reads-bind _ (Reads-string8 m.device_id hd) (
        Reads-then Reads-check_ok
          (Reads-bind _ (Reads-pose_body ieee m.body hb.seq hb.flag_byte) (Reads-pure _))))

  Reads-room_pose_client :
      (c : RoomPoseClient W)
      → IsRoomClient c
      → Reads read_room_pose_client (write_room_pose_client c) (received_client c)
  unfolding read_room_pose_client write_room_pose_client
  Reads-room_pose_client c h = Reads-bind _ (Reads-u16 c.client_no h.number) (
      Reads-bind _ (Reads-f64 c.pose_time h.time) (
        Reads-then Reads-check_ok
          (Reads-bind _ (Reads-pose_body ieee c.body h.pose.seq h.pose.flag_byte) (Reads-pure _))))

  Reads-room_pose :
      (m : RoomPoseMessage W)
      → IsRoomPose m
      → Reads room_pose_fields
          (serialize_room_pose m)
          (record m { clients = map received_client m.clients })
  unfolding room_pose_fields serialize_room_pose
  Reads-room_pose m h = rw (small (length m.clients) h.count) (
      Reads-begin_version msg_room_pose (omega arith) (
        Reads-bind _ (Reads-string8 m.room_id h.room) (
          Reads-bind _ (Reads-f64 m.broadcast_time h.time) (
            Reads-bind _ (Reads-u16 (length m.clients) h.count) (
              Reads-then Reads-check_ok (
                Reads-bind _
                  (Reads-repeat-map read_room_pose_client write_room_pose_client received_client
                    IsRoomClient m.clients Reads-room_pose_client h.each)
                  (Reads-then Reads-check_ok (Reads-pure _))))))))
    where
      small : (n : ℕ) → n < 2 ^ 16 → n % 2 ^ 16 ≡ n
      small n h = omega arith

  Reads-object_pose :
      (m : ObjectPoseMessage W)
      → IsObjectPose m
      → Reads object_pose_fields (serialize_object_pose m) (record m {
        position = received_position m.position;
        rotation = received_rotation m.rotation;
      })
  unfolding object_pose_fields serialize_object_pose
  Reads-object_pose m h = Reads-begin_version msg_object_pose (omega arith) (
      Reads-bind _ (Reads-string8 m.device_id h.device) (
        Reads-bind _ (Reads-u32 m.object_id h.object) (
          Reads-bind _ (Reads-u16 m.pose_seq h.seq)
            (Reads-bind _ (Reads-placement m.position m.rotation) (Reads-pure _)))))

  Reads-room_object :
      (o : RoomObjectState W)
      → IsRoomObject o
      → Reads read_room_object (write_room_object o) (received_object o)
  unfolding read_room_object write_room_object
  Reads-room_object o h = Reads-bind _ (Reads-u32 o.object_id h.object) (
      Reads-bind _ (Reads-u16 o.owner_client_no h.owner) (
        Reads-bind _ (Reads-u16 o.pose_seq h.seq) (
          Reads-bind _ (Reads-f64 o.pose_time h.time)
            (Reads-bind _ (Reads-placement o.position o.rotation) (Reads-pure _)))))

  Reads-room_objects :
      (m : RoomObjectsMessage W)
      → IsRoomObjects m
      → Reads room_objects_fields
          (serialize_room_objects m)
          (record m { objects = map received_object m.objects })
  unfolding room_objects_fields serialize_room_objects
  Reads-room_objects m h = rw (small (length m.objects) h.count) (
      Reads-begin_version msg_room_objects (omega arith) (
        Reads-bind _ (Reads-f64 m.broadcast_time h.time) (
          Reads-bind _ (Reads-u16 (length m.objects) h.count) (
            Reads-then Reads-check_ok (
              Reads-bind _
                (Reads-repeat-map read_room_object write_room_object received_object IsRoomObject
                  m.objects Reads-room_object h.each)
                (Reads-then Reads-check_ok (Reads-pure _)))))))
    where
      small : (n : ℕ) → n < 2 ^ 16 → n % 2 ^ 16 ≡ n
      small n h = omega arith

  -- A client pose and a snapshot of a room's poses are read back, whatever follows them, with the
  -- same identities, times, sequence numbers and order, and with each pose as quantisation, the
  -- flags and the place relative to the head leave it (`received_body`). Every value must fit its
  -- field, a snapshot has fewer than 65536 clients, each message has fewer than 2 ^ 64 bytes, and
  -- the numbers obey the named laws of IEEE 754.
  pub deserialize-serialize_poses :
      (p : ClientPoseMessage W) (m : RoomPoseMessage W) (rest : List ℕ)
      → length p.device_id ≤ 255
      → IsBody p.body
      → IsRoomPose m
      → length (serialize_client_pose p ++ rest) < 2 ^ 64
      → length (serialize_room_pose m ++ rest) < 2 ^ 64
      → (deserialize_client_pose (serialize_client_pose p ++ rest)
          ≡ some (record p { body = received_body p.body }))
        × (deserialize_room_pose (serialize_room_pose m ++ rest)
            ≡ some (record m { clients = map received_client m.clients }))
  unfolding deserialize_client_pose deserialize_room_pose
  deserialize-serialize_poses p m rest hd hb hm fp fm = (
    Reads-decode client_pose_fields rest (Reads-client_pose p hd hb) fp,
    Reads-decode room_pose_fields rest (Reads-room_pose m hm) fm,
  )

  -- An object pose and a snapshot of a room's objects are read back, whatever follows them, with
  -- the same ids, owners, times and sequence numbers and with quantised positions and rotations.
  -- Every value must fit its field, a snapshot has fewer than 65536 objects, each message has fewer
  -- than 2 ^ 64 bytes, and the numbers obey the named laws of IEEE 754.
  pub deserialize-serialize_objects :
      (p : ObjectPoseMessage W) (m : RoomObjectsMessage W) (rest : List ℕ)
      → IsObjectPose p
      → IsRoomObjects m
      → length (serialize_object_pose p ++ rest) < 2 ^ 64
      → length (serialize_room_objects m ++ rest) < 2 ^ 64
      → (deserialize_object_pose (serialize_object_pose p ++ rest)
          ≡ some (record p {
            position = received_position p.position;
            rotation = received_rotation p.rotation;
          }))
        × (deserialize_room_objects (serialize_room_objects m ++ rest)
            ≡ some (record m { objects = map received_object m.objects }))
  unfolding deserialize_object_pose deserialize_room_objects
  deserialize-serialize_objects p m rest hp hm fp fm = (
    Reads-decode object_pose_fields rest (Reads-object_pose p hp) fp,
    Reads-decode room_objects_fields rest (Reads-room_objects m hm) fm,
  )

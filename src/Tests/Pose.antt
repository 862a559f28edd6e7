-- ===== src/Tests/Pose.antt =====
-- Pose and object messages of src/protocol/protocol_v8.* at which the theorems on them apply.
use styly_net_sync_godot.Base.{
  ℕ, ◌^◌, ◌<◌, ◌≡◌, refl, arith, some, List, [], ◌∷◌, ◌++◌, length, map,
}
use styly_net_sync_godot.Base.Int.{ℤ, pos, negsuc}
use styly_net_sync_godot.Wire.Utf8.{truncate_utf8_bytes, is_continuation}
use styly_net_sync_godot.Wire.Writer.{
  write_u8, write_u16, write_u32, write_i16, write_i24, write_f64, write_string8,
}
use styly_net_sync_godot.Protocol.Pose.Flags.{sanitize_pose_flags, compute_encoding_flags}
use styly_net_sync_godot.Protocol.Pose.Double.{Between}
use styly_net_sync_godot.Protocol.Pose.Codec.{
  vec3, identity, quantize_signed, quantize_signed_int24,
}
use styly_net_sync_godot.Protocol.Pose.SmallestThree.{
  compress_quaternion_smallest_three, decompress_quaternion_smallest_three, rebuild,
  largest_and_others, pack_component, unpack_component,
}
use styly_net_sync_godot.Protocol.Pose.Bounds.{quantize_in_range, decompress-compress}
use styly_net_sync_godot.Protocol.Pose.Body.{
  PoseTransform, ClientPoseBody, no_transform, write_pose_body, write_physical, write_head,
  write_relative,
}
use styly_net_sync_godot.Protocol.Pose.BodyRoundTrip.{received_body}
use styly_net_sync_godot.Protocol.Pose.Messages.{
  ClientPoseMessage, RoomPoseMessage, serialize_client_pose, deserialize_client_pose,
  serialize_room_pose, write_room_pose_client, deserialize_room_pose,
  serialize_stealth_handshake_pose,
}
use styly_net_sync_godot.Protocol.Pose.Objects.{
  ObjectPoseMessage, RoomObjectsMessage, serialize_object_pose, deserialize_object_pose,
  serialize_room_objects, write_room_object, write_placement, deserialize_room_objects,
}
use styly_net_sync_godot.Protocol.Pose.MessagesRoundTrip.{
  IsBody, IsRoomPose, received_client, received_object, received_position, received_rotation,
  serialize_client_pose-stealth, deserialize-serialize_poses, deserialize-serialize_objects,
}
use styly_net_sync_godot.Tests.Fixed.{fixed_double, fixed-IsIeee}

abbrev pub tail : List ℕ
tail = 1 ∷ 2 ∷ []

-- 1.5, -0.25 and 2 metres.
abbrev pub raised : PoseTransform ℤ
raised = record { position = vec3 (pos 1500) (negsuc 249) (pos 2000); rotation = identity }

-- Physical, head, right hand and virtuals are there; the left hand is not.
abbrev body : ℕ → ℕ → ClientPoseBody ℤ
body seq flags = record {
  pose_seq = seq;
  flags = flags;
  encoding_flags = 0;
  xr_origin_delta_position = vec3 (pos 100) (pos 0) (negsuc 99);
  xr_origin_delta_yaw = pos 0;
  physical = no_transform;
  head = raised;
  right_hand = raised;
  left_hand = raised;
  virtuals = raised ∷ no_transform ∷ [];
}

abbrev pose : ClientPoseMessage ℤ
pose = record { device_id = 100 ∷ 49 ∷ []; body = body 7 46 }

abbrev pub room : RoomPoseMessage ℤ
room = record {
  room_id = 114 ∷ [];
  broadcast_time = 2 ^ 62;
  clients = record { client_no = 3; pose_time = 2 ^ 61; body = body 8 46 } ∷ [];
}

abbrev object_pose : ObjectPoseMessage ℤ
object_pose = record {
  device_id = 100 ∷ 49 ∷ [];
  object_id = 70_000;
  pose_seq = 9;
  position = raised.position;
  rotation = identity;
}

abbrev objects : RoomObjectsMessage ℤ
objects = record {
  broadcast_time = 2 ^ 62;
  objects =
      record {
        object_id = 70_000;
        owner_client_no = 3;
        pose_seq = 9;
        pose_time = 2 ^ 61;
        position = raised.position;
        rotation = identity;
      }
      ∷ [];
}

-- The range is met at both ends: a value far below, in hundredths, and one far above.
quantises :
    (quantize_signed {W = ℤ} (negsuc 999_999_999) (pos 10) ≡ negsuc 32_767)
    × (quantize_signed {W = ℤ} (pos 1500) (pos 10) ≡ pos 150)
    × (quantize_signed_int24 {W = ℤ} (pos 999_999_999_999) (pos 10) ≡ pos 8_388_607)
unfolding quantize_signed quantize_signed_int24
quantises = (refl, refl, refl)

quantize_in_range_example :
    Between (quantize_signed {W = ℤ} (negsuc 999_999_999) (pos 10)) 32_768 32_767
    × Between (quantize_signed_int24 {W = ℤ} (negsuc 999_999_999) (pos 10)) 8_388_608 8_388_607
quantize_in_range_example = quantize_in_range fixed-IsIeee (negsuc 999_999_999) (pos 10)

decompress-compress_example :
    let q = identity {W = ℤ} in
    (compress_quaternion_smallest_three q < 2 ^ 32)
    × (decompress_quaternion_smallest_three {W = ℤ} (compress_quaternion_smallest_three q)
        ≡ rebuild
            (largest_and_others q).0
            (map unpack_component (map pack_component (largest_and_others q).1)))
decompress-compress_example = decompress-compress fixed-IsIeee (identity {W = ℤ})

serialize_client_pose-stealth_example :
    serialize_client_pose {W = ℤ} (record { device_id = 100 ∷ []; body = body 0 47 })
    ≡ serialize_stealth_handshake_pose (100 ∷ [])
serialize_client_pose-stealth_example =
    serialize_client_pose-stealth {W = ℤ} (record { device_id = 100 ∷ []; body = body 0 47 }) refl
      refl

pose-IsBody : IsBody pose.body
pose-IsBody = record { seq = omega arith; flag_byte = omega arith }

room-IsRoomPose : IsRoomPose room
room-IsRoomPose = record {
  room = omega arith;
  time = omega arith;
  count = omega arith;
  each = (
    record {
      number = omega arith;
      time = omega arith;
      pose = record { seq = omega arith; flag_byte = omega arith };
    },
    tt,
  );
}

pose-length : length (serialize_client_pose pose ++ tail) < 2 ^ 64
unfolding serialize_client_pose serialize_room_pose write_room_pose_client write_pose_body
    sanitize_pose_flags compute_encoding_flags write_physical write_head write_relative write_u8
    write_u16 write_u32 write_i16 write_i24 write_f64 write_string8 truncate_utf8_bytes
    is_continuation
pose-length = omega arith

room-length : length (serialize_room_pose room ++ tail) < 2 ^ 64
unfolding serialize_client_pose serialize_room_pose write_room_pose_client write_pose_body
    sanitize_pose_flags compute_encoding_flags write_physical write_head write_relative write_u8
    write_u16 write_u32 write_i16 write_i24 write_f64 write_string8 truncate_utf8_bytes
    is_continuation
room-length = omega arith

pub room_arrives :
    deserialize_room_pose (serialize_room_pose room ++ tail)
    ≡ some (record room { clients = map received_client room.clients })
room_arrives =
    (deserialize-serialize_poses fixed-IsIeee pose room tail (omega arith) pose-IsBody
      room-IsRoomPose pose-length room-length).1

deserialize-serialize_poses_example :
    (deserialize_client_pose (serialize_client_pose pose ++ tail)
      ≡ some (record pose { body = received_body pose.body }))
    × (deserialize_room_pose (serialize_room_pose room ++ tail)
        ≡ some (record room { clients = map received_client room.clients }))
deserialize-serialize_poses_example =
    deserialize-serialize_poses fixed-IsIeee pose room tail (omega arith) pose-IsBody
      room-IsRoomPose pose-length room-length

object-length : length (serialize_object_pose object_pose ++ tail) < 2 ^ 64
unfolding serialize_object_pose serialize_room_objects write_room_object write_placement write_u8
    write_u16 write_u32 write_i24 write_f64 write_string8 truncate_utf8_bytes is_continuation
object-length = omega arith

objects-length : length (serialize_room_objects objects ++ tail) < 2 ^ 64
unfolding serialize_object_pose serialize_room_objects write_room_object write_placement write_u8
    write_u16 write_u32 write_i24 write_f64 write_string8 truncate_utf8_bytes is_continuation
objects-length = omega arith

deserialize-serialize_objects_example :
    (deserialize_object_pose (serialize_object_pose object_pose ++ tail)
      ≡ some (record object_pose {
        position = received_position object_pose.position;
        rotation = received_rotation object_pose.rotation;
      }))
    × (deserialize_room_objects (serialize_room_objects objects ++ tail)
        ≡ some (record objects { objects = map received_object objects.objects }))
deserialize-serialize_objects_example =
    deserialize-serialize_objects fixed-IsIeee object_pose objects tail
      (record { device = omega arith; object = omega arith; seq = omega arith })
      (record {
        time = omega arith;
        count = omega arith;
        each = (
          record {
            object = omega arith;
            owner = omega arith;
            seq = omega arith;
            time = omega arith;
          },
          tt,
        );
      })
      object-length objects-length

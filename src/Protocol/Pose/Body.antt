-- ===== src/Protocol/Pose/Body.antt =====
-- The pose body of src/protocol/protocol_v8.cpp: write_pose_body and read_pose_body. The flags
-- decide which parts are there.
use styly_net_sync_godot.Base.{
  ℕ, Bool, not, ◌&&◌, ◌||◌, List, [], ◌∷◌, concat, map, min, take, length, if◌then◌else◌,
}
use styly_net_sync_godot.Base.Int.{ℤ, pos}
use styly_net_sync_godot.Wire.Writer.{write_u8, write_u16, write_u32, write_i16, write_i24}
use styly_net_sync_godot.Wire.Reader.{read_u8, read_u16, read_u32, read_i16, read_i24}
use styly_net_sync_godot.Wire.Decode.{
  Decode, ◌>>=◌, ◌>>◌, pure, field, guard, check_ok, is_ok, repeat,
}
use styly_net_sync_godot.Protocol.Pose.Double.{Double, ◌⊕◌, ◌⊖◌, nought}
use styly_net_sync_godot.Protocol.Pose.Codec.{
  Vec3, Quat, vec3, abs_pos_scale, loco_pos_scale, rel_pos_scale, physical_yaw_scale, zero_vec3,
  identity, quantize_signed, quantize_signed_int24, dequantize_signed, normalize_quaternion,
  quaternion_inverse, quaternion_multiply,
}
use styly_net_sync_godot.Protocol.Pose.Yaw.{
  normalize_yaw_degrees, quaternion_to_yaw_degrees, yaw_degrees_to_quaternion, rotate_yaw_vector,
}
use styly_net_sync_godot.Protocol.Pose.SmallestThree.{
  compress_quaternion_smallest_three, decompress_quaternion_smallest_three,
}
use styly_net_sync_godot.Protocol.Pose.Flags.{
  pose_flag_physical_valid, pose_flag_head_valid, pose_flag_right_valid, pose_flag_left_valid,
  pose_flag_virtuals_valid, pose_flag_moving_floor_local, encoding_physical_is_xrorigin_delta,
  max_virtual_transforms, has_flag, sanitize_pose_flags, compute_encoding_flags,
}

pub record PoseTransform (W : Type 0) : Type 0 where
  pub position : Vec3 W
  pub rotation : Quat W

pub record ClientPoseBody (W : Type 0) : Type 0 where
  pub pose_seq : ℕ
  pub flags : ℕ
  pub encoding_flags : ℕ
  pub xr_origin_delta_position : Vec3 W
  pub xr_origin_delta_yaw : W
  pub physical : PoseTransform W
  pub head : PoseTransform W
  pub right_hand : PoseTransform W
  pub left_hand : PoseTransform W
  pub virtuals : List (PoseTransform W)

-- The parts that the flags announce.
abbrev pub physical_valid : ℕ → Bool
physical_valid flags = has_flag flags pose_flag_physical_valid

abbrev pub head_valid : ℕ → Bool
head_valid flags = has_flag flags pose_flag_head_valid

abbrev pub right_valid : ℕ → Bool
right_valid flags = head_valid flags && has_flag flags pose_flag_right_valid

abbrev pub left_valid : ℕ → Bool
left_valid flags = head_valid flags && has_flag flags pose_flag_left_valid

abbrev pub virtual_valid : ℕ → Bool
virtual_valid flags = head_valid flags && has_flag flags pose_flag_virtuals_valid

abbrev pub moving_floor_local : ℕ → Bool
moving_floor_local flags = has_flag flags pose_flag_moving_floor_local

-- Four 16-bit fields: the physical part. Three and a packed rotation: a part relative to the head,
-- and the head with 24-bit fields.
pub record WirePhysical : Type 0 where
  pub dx : ℤ
  pub dy : ℤ
  pub dz : ℤ
  pub dyaw : ℤ

pub record WireTransform : Type 0 where
  pub x : ℤ
  pub y : ℤ
  pub z : ℤ
  pub packed : ℕ

abbrev pub no_physical : WirePhysical
no_physical = record { dx = pos 0; dy = pos 0; dz = pos 0; dyaw = pos 0 }

unfoldable pub write_physical : WirePhysical → List ℕ
write_physical p = concat (write_i16 p.dx ∷ write_i16 p.dy ∷ write_i16 p.dz ∷ write_i16 p.dyaw ∷ [])

unfoldable pub write_head : WireTransform → List ℕ
write_head t = concat (write_i24 t.x ∷ write_i24 t.y ∷ write_i24 t.z ∷ write_u32 t.packed ∷ [])

unfoldable pub write_relative : WireTransform → List ℕ
write_relative t = concat (write_i16 t.x ∷ write_i16 t.y ∷ write_i16 t.z ∷ write_u32 t.packed ∷ [])

-- A part that is written only if its flag is set.
abbrev pub when : Bool → List ℕ → List ℕ
when valid bytes = if valid then bytes else []

unfoldable pub read_physical : Decode WirePhysical
read_physical = do
  dx ← field read_i16
  dy ← field read_i16
  dz ← field read_i16
  dyaw ← field read_i16
  pure (record { dx = dx; dy = dy; dz = dz; dyaw = dyaw })

module _ {W : Type 0} ⦃d : Double W⦄ where
  abbrev pub no_transform : PoseTransform W
  no_transform = record { position = zero_vec3; rotation = identity }

  -- What of the physical pose is sent: itself on a moving floor, else the XR origin's delta.
  unfoldable pub physical_fields : ℕ → ClientPoseBody W → WirePhysical
  unfolding quaternion_to_yaw_degrees quantize_signed
  physical_fields flags body =
      if moving_floor_local flags
      then record {
        dx = quantize_signed body.physical.position.x loco_pos_scale;
        dy = quantize_signed body.physical.position.y loco_pos_scale;
        dz = quantize_signed body.physical.position.z loco_pos_scale;
        dyaw =
            quantize_signed (quaternion_to_yaw_degrees body.physical.rotation) physical_yaw_scale;
      }
      else record {
        dx = quantize_signed body.xr_origin_delta_position.x loco_pos_scale;
        dy = quantize_signed body.xr_origin_delta_position.y loco_pos_scale;
        dz = quantize_signed body.xr_origin_delta_position.z loco_pos_scale;
        dyaw = quantize_signed body.xr_origin_delta_yaw physical_yaw_scale;
      }

  unfoldable pub head_fields : PoseTransform W → WireTransform
  unfolding quantize_signed_int24 compress_quaternion_smallest_three normalize_quaternion
  head_fields head = record {
    x = quantize_signed_int24 head.position.x abs_pos_scale;
    y = quantize_signed_int24 head.position.y abs_pos_scale;
    z = quantize_signed_int24 head.position.z abs_pos_scale;
    packed = compress_quaternion_smallest_three (normalize_quaternion head.rotation);
  }

  -- A hand or a virtual, seen from the head.
  unfoldable pub relative_fields : PoseTransform W → PoseTransform W → WireTransform
  unfolding quantize_signed compress_quaternion_smallest_three normalize_quaternion
      quaternion_inverse quaternion_multiply
  relative_fields head t =
      let inv_head_rot = quaternion_inverse (normalize_quaternion head.rotation) in
      let rot = normalize_quaternion t.rotation in
      record {
        x = quantize_signed (t.position.x ⊖ head.position.x) rel_pos_scale;
        y = quantize_signed (t.position.y ⊖ head.position.y) rel_pos_scale;
        z = quantize_signed (t.position.z ⊖ head.position.z) rel_pos_scale;
        packed = compress_quaternion_smallest_three (quaternion_multiply inv_head_rot rot);
      }

  abbrev pub sent_virtuals : ℕ → List (PoseTransform W) → List (PoseTransform W)
  sent_virtuals flags virtuals =
      if virtual_valid flags
      then take (min (length virtuals) max_virtual_transforms) virtuals
      else []

  unfoldable pub write_pose_body : ClientPoseBody W → List ℕ
  unfolding sanitize_pose_flags compute_encoding_flags physical_fields head_fields relative_fields
      write_physical write_head write_relative
  write_pose_body body =
      let flags = sanitize_pose_flags body.flags in
      let sent = sent_virtuals flags body.virtuals in
      concat (
        write_u16 body.pose_seq
        ∷ write_u8 flags
        ∷ write_u8 (compute_encoding_flags flags)
        ∷ when (physical_valid flags) (write_physical (physical_fields flags body))
        ∷ when (head_valid flags) (write_head (head_fields body.head))
        ∷ when (right_valid flags) (write_relative (relative_fields body.head body.right_hand))
        ∷ when (left_valid flags) (write_relative (relative_fields body.head body.left_hand))
        ∷ write_u8 (length sent)
        ∷ concat (map (λ t. write_relative (relative_fields body.head t)) sent)
        ∷ [])

  unfoldable pub head_of : WireTransform → PoseTransform W
  unfolding dequantize_signed decompress_quaternion_smallest_three
  head_of t = record {
    position =
        vec3 (dequantize_signed t.x abs_pos_scale) (dequantize_signed t.y abs_pos_scale)
          (dequantize_signed t.z abs_pos_scale);
    rotation = decompress_quaternion_smallest_three t.packed;
  }

  -- A hand or a virtual, put back where the head stands.
  unfoldable pub relative_of : PoseTransform W → WireTransform → PoseTransform W
  unfolding dequantize_signed decompress_quaternion_smallest_three normalize_quaternion
      quaternion_multiply
  relative_of head t =
      let rel_rot = decompress_quaternion_smallest_three t.packed in
      record {
        position =
            vec3 (head.position.x ⊕ dequantize_signed t.x rel_pos_scale)
              (head.position.y ⊕ dequantize_signed t.y rel_pos_scale)
              (head.position.z ⊕ dequantize_signed t.z rel_pos_scale);
        rotation = normalize_quaternion (quaternion_multiply head.rotation rel_rot);
      }

  unfoldable pub read_head : Decode (PoseTransform W)
  unfolding head_of
  read_head = do
    hx ← field read_i24
    hy ← field read_i24
    hz ← field read_i24
    packed_head ← field read_u32
    check_ok
    pure (head_of (record { x = hx; y = hy; z = hz; packed = packed_head }))

  -- A failed read leaves the transform as it was constructed.
  unfoldable pub read_relative : PoseTransform W → Decode (PoseTransform W)
  unfolding relative_of
  read_relative head = do
    rx ← field read_i16
    ry ← field read_i16
    rz ← field read_i16
    packed ← field read_u32
    ok ← is_ok
    pure (
        if ok
        then relative_of head (record { x = rx; y = ry; z = rz; packed = packed })
        else no_transform)

  -- The XR origin's delta, which the physical part carries unless the floor moves.
  unfoldable pub delta_position : ℕ → WirePhysical → Vec3 W
  unfolding dequantize_signed
  delta_position flags p =
      if physical_valid flags && not (moving_floor_local flags)
      then vec3 (dequantize_signed p.dx loco_pos_scale) (dequantize_signed p.dy loco_pos_scale)
          (dequantize_signed p.dz loco_pos_scale)
      else zero_vec3

  unfoldable pub delta_yaw : ℕ → WirePhysical → W
  unfolding dequantize_signed
  delta_yaw flags p =
      if physical_valid flags && not (moving_floor_local flags)
      then dequantize_signed p.dyaw physical_yaw_scale
      else nought

  abbrev translated : PoseTransform W → Vec3 W → Vec3 W
  translated head delta =
      vec3 (head.position.x ⊖ delta.x) (head.position.y ⊖ delta.y) (head.position.z ⊖ delta.z)

  unfoldable pub physical_of : ℕ → WirePhysical → PoseTransform W → PoseTransform W
  unfolding dequantize_signed yaw_degrees_to_quaternion rotate_yaw_vector quaternion_to_yaw_degrees
      normalize_yaw_degrees delta_position delta_yaw
  physical_of flags p head =
      if physical_valid flags && moving_floor_local flags
      then record {
        position =
            vec3 (dequantize_signed p.dx loco_pos_scale) (dequantize_signed p.dy loco_pos_scale)
              (dequantize_signed p.dz loco_pos_scale);
        rotation = yaw_degrees_to_quaternion (dequantize_signed p.dyaw physical_yaw_scale);
      }
      else if physical_valid flags && head_valid flags
      then record {
        position =
            rotate_yaw_vector (translated head (delta_position flags p))
              (d.neg (delta_yaw flags p));
        rotation =
            yaw_degrees_to_quaternion
              (normalize_yaw_degrees (quaternion_to_yaw_degrees head.rotation ⊖ delta_yaw flags p));
      }
      else no_transform

  -- The body of what its parts are.
  unfoldable pub body_of :
      ℕ
      → ℕ
      → ℕ
      → WirePhysical
      → (head right left : PoseTransform W) → List (PoseTransform W)
      → ClientPoseBody W
  unfolding delta_position delta_yaw physical_of
  body_of pose_seq flags encoding_flags p head right left entries = record {
    pose_seq = pose_seq;
    flags = flags;
    encoding_flags = encoding_flags;
    xr_origin_delta_position = delta_position flags p;
    xr_origin_delta_yaw = delta_yaw flags p;
    physical = physical_of flags p head;
    head = head;
    right_hand = right;
    left_hand = left;
    virtuals = if virtual_valid flags then entries else [];
  }

  abbrev pub entry : PoseTransform W → Decode (PoseTransform W)
  entry head = do t ← read_relative head; check_ok; pure t

  unfoldable pub read_pose_body : Decode (ClientPoseBody W)
  unfolding read_physical read_head read_relative body_of
  read_pose_body = do
    pose_seq ← field read_u16
    flags ← field read_u8
    encoding_flags ← field read_u8
    check_ok
    p ←
        (if physical_valid flags
          then guard (
              moving_floor_local flags
              || has_flag encoding_flags encoding_physical_is_xrorigin_delta)
            >> read_physical
          else pure no_physical)
    head ← (if head_valid flags then read_head else pure no_transform)
    right ← (if right_valid flags then read_relative head else pure no_transform)
    left ← (if left_valid flags then read_relative head else pure no_transform)
    virtual_count ← field read_u8
    check_ok
    entries ← repeat (min virtual_count max_virtual_transforms) (entry head)
    check_ok
    pure (body_of pose_seq flags encoding_flags p head right left entries)

-- ===== src/Protocol/Pose/BodyRoundTrip.antt =====
-- What read_pose_body of src/protocol/protocol_v8.cpp makes of the bytes of write_pose_body.
use styly_net_sync_godot.Base.{
  ℕ, ◌^◌, ◌≤◌, ◌<◌, ◌≡◌, refl, true, ◌||◌, List, [], ◌∷◌, concat, map, min, length, if◌then◌else◌,
  if_cases, arith, All, append-nil, length-take,
}
use styly_net_sync_godot.Base.Int.{ℤ}
use styly_net_sync_godot.Wire.Decode.{field, repeat}
use styly_net_sync_godot.Wire.Decode.RoundTrip.{
  Reads, Reads-bind, Reads-then, Reads-pure, Reads-subst, Reads-check_ok, Reads-is_ok, Reads-when,
  Reads-guard, Reads-u8, Reads-u16, Reads-u32, Reads-i16, Reads-i24, Reads-repeat-map, IsI16,
}
use styly_net_sync_godot.Wire.Reader.{read_i24}
use styly_net_sync_godot.Wire.Writer.{clamp_i24, write_i24}
use styly_net_sync_godot.Protocol.Pose.Double.{Double, IsIeee}
use styly_net_sync_godot.Protocol.Pose.Bounds.{
  quantize_signed-IsI16, clamp_i24-quantize_signed_int24, decompress-compress,
}
use styly_net_sync_godot.Protocol.Pose.Flags.{
  encoding_physical_is_xrorigin_delta, max_virtual_transforms, has_flag, sanitize_pose_flags,
  compute_encoding_flags,
}
use styly_net_sync_godot.Protocol.Pose.Body.{
  PoseTransform, ClientPoseBody, WirePhysical, WireTransform, no_physical, no_transform,
  physical_valid, head_valid, right_valid, left_valid, virtual_valid, moving_floor_local,
  write_physical, write_head, write_relative, read_physical, physical_fields, head_fields,
  relative_fields, sent_virtuals, write_pose_body, head_of, relative_of, read_head, read_relative,
  body_of, entry, read_pose_body,
}

-- What the fields of a part can hold.
record FitsPhysical (p : WirePhysical) : Type 0 where
  dx : IsI16 p.dx
  dy : IsI16 p.dy
  dz : IsI16 p.dz
  dyaw : IsI16 p.dyaw

record FitsRelative (t : WireTransform) : Type 0 where
  x : IsI16 t.x
  y : IsI16 t.y
  z : IsI16 t.z
  packed : t.packed < 2 ^ 32

Reads-physical : (p : WirePhysical) → FitsPhysical p → Reads read_physical (write_physical p) p
unfolding read_physical write_physical
Reads-physical p h = Reads-bind _ (Reads-i16 p.dx h.dx) (
    Reads-bind _ (Reads-i16 p.dy h.dy)
      (Reads-bind _ (Reads-i16 p.dz h.dz) (Reads-bind _ (Reads-i16 p.dyaw h.dyaw) (Reads-pure p))))

pub Reads-exact_i24 : {v : ℤ} → clamp_i24 v ≡ v → Reads (field read_i24) (write_i24 v) v
Reads-exact_i24 {v = v} h = Reads-subst (Reads-i24 v) refl h

-- A sanitised byte of flags is a byte, and is sanitised.
pub sanitize_pose_flags-lt : (flags : ℕ) → flags < 2 ^ 8 → sanitize_pose_flags flags < 2 ^ 8
unfolding sanitize_pose_flags
sanitize_pose_flags-lt flags h = ground arith

compute_encoding_flags-lt : (flags : ℕ) → compute_encoding_flags flags < 2 ^ 8
unfolding compute_encoding_flags
compute_encoding_flags-lt flags = ground arith

-- The derived encoding flags say how the physical part was written.
moving_or_delta :
    (flags : ℕ)
    → (moving_floor_local flags
        || has_flag (compute_encoding_flags flags) encoding_physical_is_xrorigin_delta)
      ≡ true
unfolding compute_encoding_flags
moving_or_delta flags = ground arith

min_small : (n : ℕ) → n ≤ 50 → min n max_virtual_transforms ≡ n
min_small n h = omega arith

module _ {W : Type 0} ⦃d : Double W⦄ where
  -- The parts as they come back.
  abbrev pub sent_head : PoseTransform W → PoseTransform W
  sent_head head = head_of (head_fields head)

  -- The physical, head and hand parts as they come back: quantised, or the default where the
  -- sanitised flags leave them out.
  unfoldable pub received_body : ClientPoseBody W → ClientPoseBody W
  received_body body =
      let flags = sanitize_pose_flags body.flags in
      let p = if physical_valid flags then physical_fields flags body else no_physical in
      let head = if head_valid flags then sent_head body.head else no_transform in
      let back = λ (t : PoseTransform W). relative_of head (relative_fields body.head t) in
      body_of body.pose_seq flags (compute_encoding_flags flags) p head
        (if right_valid flags then back body.right_hand else no_transform)
        (if left_valid flags then back body.left_hand else no_transform)
        (map back (sent_virtuals flags body.virtuals))

module _ {W : Type 0} ⦃d : Double W⦄ (ieee : IsIeee W) where
  physical_fields-Fits :
      (flags : ℕ) (body : ClientPoseBody W) → FitsPhysical (physical_fields flags body)
  unfolding physical_fields
  physical_fields-Fits flags body =
      if_cases FitsPhysical (moving_floor_local flags)
        (record {
          dx = quantize_signed-IsI16 ieee _ _;
          dy = quantize_signed-IsI16 ieee _ _;
          dz = quantize_signed-IsI16 ieee _ _;
          dyaw = quantize_signed-IsI16 ieee _ _;
        })
        (record {
          dx = quantize_signed-IsI16 ieee _ _;
          dy = quantize_signed-IsI16 ieee _ _;
          dz = quantize_signed-IsI16 ieee _ _;
          dyaw = quantize_signed-IsI16 ieee _ _;
        })

  relative_fields-Fits : (head t : PoseTransform W) → FitsRelative (relative_fields head t)
  unfolding relative_fields
  relative_fields-Fits head t = record {
    x = quantize_signed-IsI16 ieee _ _;
    y = quantize_signed-IsI16 ieee _ _;
    z = quantize_signed-IsI16 ieee _ _;
    packed = (decompress-compress ieee _).0;
  }

  Reads-head :
      (head : PoseTransform W) → Reads read_head (write_head (head_fields head)) (sent_head head)
  unfolding read_head write_head head_fields
  Reads-head head = Reads-bind _ (Reads-exact_i24 (clamp_i24-quantize_signed_int24 ieee _ _)) (
      Reads-bind _ (Reads-exact_i24 (clamp_i24-quantize_signed_int24 ieee _ _)) (
        Reads-bind _ (Reads-exact_i24 (clamp_i24-quantize_signed_int24 ieee _ _)) (
          Reads-bind _ (Reads-u32 _ (decompress-compress ieee _).0)
            (Reads-then Reads-check_ok (Reads-pure _)))))

  Reads-relative :
      (head : PoseTransform W) (t : WireTransform)
      → FitsRelative t
      → Reads (read_relative head) (write_relative t) (relative_of head t)
  unfolding read_relative write_relative
  Reads-relative head t h = Reads-bind _ (Reads-i16 t.x h.x) (
      Reads-bind _ (Reads-i16 t.y h.y) (
        Reads-bind _ (Reads-i16 t.z h.z)
          (Reads-bind _ (Reads-u32 t.packed h.packed) (Reads-bind _ Reads-is_ok (Reads-pure _)))))

  Reads-entry :
      (head : PoseTransform W) (t : WireTransform)
      → FitsRelative t
      → Reads (entry head) (write_relative t) (relative_of head t)
  Reads-entry head t h =
      Reads-subst
        (Reads-bind _ (Reads-relative head t h) (Reads-then Reads-check_ok (Reads-pure _)))
        (append-nil (write_relative t)) refl

  length-sent_virtuals :
      (flags : ℕ) (virtuals : List (PoseTransform W)) → length (sent_virtuals flags virtuals) ≤ 50
  length-sent_virtuals flags virtuals =
      if_cases (λ (xs : List (PoseTransform W)). length xs ≤ 50) (virtual_valid flags)
        (omega (arith, length-take (min (length virtuals) 50) virtuals)) (omega arith)

  All-true : (ts : List (PoseTransform W)) → All (λ t. Unit {0}) ts
  All-true [] = tt
  All-true (t ∷ ts) = (tt, All-true ts)

  Reads-virtuals :
      (written read : PoseTransform W) (sent : List (PoseTransform W))
      → length sent ≤ 50
      → Reads
          (repeat (min (length sent) max_virtual_transforms) (entry read))
          (concat (map (λ t. write_relative (relative_fields written t)) sent))
          (map (λ t. relative_of read (relative_fields written t)) sent)
  Reads-virtuals written read sent h = rw (min_small (length sent) h) (
      Reads-repeat-map (entry read) (λ t. write_relative (relative_fields written t))
        (λ t. relative_of read (relative_fields written t)) (λ t. Unit {0}) sent
        (λ t _. Reads-entry read (relative_fields written t) (relative_fields-Fits written t))
        (All-true sent))

  pub Reads-pose_body :
      (body : ClientPoseBody W)
      → body.pose_seq < 2 ^ 16
      → body.flags < 2 ^ 8
      → Reads read_pose_body (write_pose_body body) (received_body body)
  unfolding read_pose_body write_pose_body received_body
  Reads-pose_body body hs hf =
      let flags = sanitize_pose_flags body.flags in
      let head = if head_valid flags then sent_head body.head else no_transform in
      let sent = sent_virtuals flags body.virtuals in
      let small = length-sent_virtuals flags body.virtuals in
      Reads-bind _ (Reads-u16 body.pose_seq hs) (
        Reads-bind _ (Reads-u8 flags (sanitize_pose_flags-lt body.flags hf)) (
          Reads-bind _ (Reads-u8 (compute_encoding_flags flags) (compute_encoding_flags-lt flags)) (
            Reads-then Reads-check_ok (
              Reads-bind _
                (Reads-when (physical_valid flags) no_physical (λ _.
                  Reads-then (Reads-guard (moving_or_delta flags))
                    (Reads-physical _ (physical_fields-Fits flags body))))
                (Reads-bind _
                  (Reads-when (head_valid flags) no_transform (λ _. Reads-head body.head))
                  (Reads-bind _
                    (Reads-when (right_valid flags) no_transform
                      (λ _. Reads-relative head _ (relative_fields-Fits body.head body.right_hand)))
                    (Reads-bind _
                      (Reads-when (left_valid flags) no_transform (λ _.
                        Reads-relative head _ (relative_fields-Fits body.head body.left_hand)))
                      (Reads-bind _ (Reads-u8 (length sent) (omega (arith, small))) (
                        Reads-then Reads-check_ok (
                          Reads-bind _ (Reads-virtuals body.head head sent small)
                            (Reads-then Reads-check_ok (Reads-pure _))))))))))))

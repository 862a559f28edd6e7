-- ===== src/Protocol/Pose/Codec.antt =====
-- The vectors, rounding, quantisers and quaternion arithmetic of src/protocol/pose_codec.hpp and
-- .cpp, over any type of doubles.
use styly_net_sync_godot.Base.{◌-◌, ◌^◌, not, ◌||◌, if◌then◌else◌}
use styly_net_sync_godot.Base.Int.{ℤ, pos}
use styly_net_sync_godot.Protocol.Pose.Double.{Double, ◌⊕◌, ◌⊖◌, ◌⊗◌, ◌⊘◌, nought, unit, minus}

pub record Vec3 (W : Type 0) : Type 0 where
  pub x : W
  pub y : W
  pub z : W

pub record Quat (W : Type 0) : Type 0 where
  pub x : W
  pub y : W
  pub z : W
  pub w : W

module _ {W : Type 0} where
  abbrev pub vec3 : W → W → W → Vec3 W
  vec3 x y z = record { x = x; y = y; z = z }

  abbrev pub quat : W → W → W → W → Quat W
  quat x y z w = record { x = x; y = y; z = z; w = w }

module _ {W : Type 0} ⦃d : Double W⦄ where
  -- kAbsPosScale and kLocoPosScale, kRelPosScale, kPhysicalYawScale
  abbrev pub abs_pos_scale : W
  abs_pos_scale = d.decimal 1 2

  abbrev pub loco_pos_scale : W
  loco_pos_scale = d.decimal 1 2

  abbrev pub rel_pos_scale : W
  rel_pos_scale = d.decimal 5 3

  abbrev pub physical_yaw_scale : W
  physical_yaw_scale = d.decimal 1 1

  -- The default constructors.
  abbrev pub zero_vec3 : Vec3 W
  zero_vec3 = vec3 nought nought nought

  abbrev pub identity : Quat W
  identity = quat nought nought nought unit

  unfoldable pub round_half_to_even : W → W
  round_half_to_even value =
      if not (d.is_finite value)
      then value
      else let lower = d.floor value in
        let fraction = value ⊖ lower in
        if d.lt (d.decimal 5 1) fraction
        then lower ⊕ unit
        else if d.lt fraction (d.decimal 5 1)
        then lower
        else if d.eq (d.fmod lower (d.decimal 2 0)) nought
        then lower
        else lower ⊕ unit

  unfoldable pub clamp_rounded : W → ℤ → ℤ → ℤ
  unfolding round_half_to_even
  clamp_rounded scaled min_value max_value =
      if d.is_nan scaled
      then pos 0
      else let rounded = round_half_to_even scaled in
        if d.lt rounded (d.of_int min_value)
        then min_value
        else if d.lt (d.of_int max_value) rounded
        then max_value
        else d.to_int rounded

  -- The cast to `int16_t` changes nothing: the value is in range.
  unfoldable pub quantize_signed : W → W → ℤ
  unfolding clamp_rounded
  quantize_signed value scale =
      if not (d.lt nought scale)
      then pos 0
      else clamp_rounded (value ⊘ scale) (minus (2 ^ 15)) (pos (2 ^ 15 - 1))

  unfoldable pub quantize_signed_int24 : W → W → ℤ
  unfolding clamp_rounded
  quantize_signed_int24 value scale =
      if not (d.lt nought scale)
      then pos 0
      else clamp_rounded (value ⊘ scale) (minus (2 ^ 23)) (pos (2 ^ 23 - 1))

  unfoldable pub dequantize_signed : ℤ → W → W
  dequantize_signed value scale = d.of_int value ⊗ scale

  unfoldable pub normalize_quaternion : Quat W → Quat W
  normalize_quaternion q =
      let mag_sq = q.x ⊗ q.x ⊕ q.y ⊗ q.y ⊕ q.z ⊗ q.z ⊕ q.w ⊗ q.w in
      if not (d.is_finite mag_sq) || d.le mag_sq (d.decimal 1 12)
      then identity
      else let inv_mag = unit ⊘ d.sqrt mag_sq in
        quat (q.x ⊗ inv_mag) (q.y ⊗ inv_mag) (q.z ⊗ inv_mag) (q.w ⊗ inv_mag)

  unfoldable pub quaternion_inverse : Quat W → Quat W
  unfolding normalize_quaternion
  quaternion_inverse q =
      let n = normalize_quaternion q in quat (d.neg n.x) (d.neg n.y) (d.neg n.z) n.w

  unfoldable pub quaternion_multiply : Quat W → Quat W → Quat W
  quaternion_multiply a b =
      quat (a.w ⊗ b.x ⊕ a.x ⊗ b.w ⊕ a.y ⊗ b.z ⊖ a.z ⊗ b.y)
        (a.w ⊗ b.y ⊖ a.x ⊗ b.z ⊕ a.y ⊗ b.w ⊕ a.z ⊗ b.x)
        (a.w ⊗ b.z ⊕ a.x ⊗ b.y ⊖ a.y ⊗ b.x ⊕ a.z ⊗ b.w)
        (a.w ⊗ b.w ⊖ a.x ⊗ b.x ⊖ a.y ⊗ b.y ⊖ a.z ⊗ b.z)

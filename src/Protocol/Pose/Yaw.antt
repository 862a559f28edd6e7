-- ===== src/Protocol/Pose/Yaw.antt =====
-- The yaw functions of src/protocol/pose_codec.cpp.
use styly_net_sync_godot.Base.{if◌then◌else◌}
use styly_net_sync_godot.Protocol.Pose.Double.{Double, ◌⊕◌, ◌⊖◌, ◌⊗◌, ◌⊘◌, nought, unit}
use styly_net_sync_godot.Protocol.Pose.Codec.{Vec3, Quat, vec3, quat, normalize_quaternion}

module _ {W : Type 0} ⦃d : Double W⦄ where
  abbrev pub pi : W
  pi = d.decimal 314_159_265_358_979_323_846 20

  unfoldable pub normalize_yaw_degrees : W → W
  normalize_yaw_degrees yaw =
      let shifted = d.fmod (yaw ⊕ d.decimal 180 0) (d.decimal 360 0) in
      (if d.lt shifted nought then shifted ⊕ d.decimal 360 0 else shifted) ⊖ d.decimal 180 0

  unfoldable pub quaternion_to_yaw_degrees : Quat W → W
  unfolding normalize_quaternion normalize_yaw_degrees
  quaternion_to_yaw_degrees q =
      let n = normalize_quaternion q in
      let siny_cosp = d.decimal 2 0 ⊗ (n.w ⊗ n.y ⊕ n.z ⊗ n.x) in
      let cosy_cosp = unit ⊖ d.decimal 2 0 ⊗ (n.y ⊗ n.y ⊕ n.z ⊗ n.z) in
      normalize_yaw_degrees (d.atan2 siny_cosp cosy_cosp ⊗ (d.decimal 180 0 ⊘ pi))

  unfoldable pub yaw_degrees_to_quaternion : W → Quat W
  yaw_degrees_to_quaternion yaw_degrees =
      let half = yaw_degrees ⊗ (pi ⊘ d.decimal 180 0) ⊗ d.decimal 5 1 in
      quat nought (d.sin half) nought (d.cos half)

  unfoldable pub rotate_yaw_vector : Vec3 W → W → Vec3 W
  rotate_yaw_vector v yaw_degrees =
      let yaw_rad = yaw_degrees ⊗ (pi ⊘ d.decimal 180 0) in
      let cos_y = d.cos yaw_rad in
      let sin_y = d.sin yaw_rad in
      vec3 (cos_y ⊗ v.x ⊕ sin_y ⊗ v.z) v.y (d.neg sin_y ⊗ v.x ⊕ cos_y ⊗ v.z)

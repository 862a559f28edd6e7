-- ===== src/Godot.antt =====
-- The conversion between Godot's coordinates and those of the wire, in
-- src/godot/coordinate_converter.*. Its proofs are in a child module, which uses this one.
pub mod Agreement
use styly_net_sync_godot.Base.{Bool, ◌&&◌, if◌then◌else◌}
use styly_net_sync_godot.Protocol.Pose.Double.{Double, ◌⊕◌, ◌⊖◌, ◌⊗◌, ◌⊘◌, nought, unit}
use styly_net_sync_godot.Protocol.Pose.Codec.{Vec3, Quat, vec3, quat, normalize_quaternion}
use styly_net_sync_godot.Protocol.Pose.Body.{PoseTransform}

-- `m[r][c]` is a field for each row and column.
pub record Mat3 (W : Type 0) : Type 0 where
  pub m00 : W
  pub m01 : W
  pub m02 : W
  pub m10 : W
  pub m11 : W
  pub m12 : W
  pub m20 : W
  pub m21 : W
  pub m22 : W

module _ {W : Type 0} ⦃d : Double W⦄ where
  abbrev pub two : W
  two = d.decimal 2 0

  abbrev quarter : W
  quarter = d.decimal 25 2

  unfoldable pub reflection_matrix : Mat3 W
  reflection_matrix = record {
    m00 = unit;
    m01 = nought;
    m02 = nought;
    m10 = nought;
    m11 = unit;
    m12 = nought;
    m20 = nought;
    m21 = nought;
    m22 = d.neg unit;
  }

  -- The inner loop: a row of one matrix and a column of the other.
  abbrev pub inner : (a0 a1 a2 b0 b1 b2 : W) → W
  inner a0 a1 a2 b0 b1 b2 = ((nought ⊕ a0 ⊗ b0) ⊕ a1 ⊗ b1) ⊕ a2 ⊗ b2

  unfoldable pub matrix_multiply : Mat3 W → Mat3 W → Mat3 W
  matrix_multiply a b = record {
    m00 = inner a.m00 a.m01 a.m02 b.m00 b.m10 b.m20;
    m01 = inner a.m00 a.m01 a.m02 b.m01 b.m11 b.m21;
    m02 = inner a.m00 a.m01 a.m02 b.m02 b.m12 b.m22;
    m10 = inner a.m10 a.m11 a.m12 b.m00 b.m10 b.m20;
    m11 = inner a.m10 a.m11 a.m12 b.m01 b.m11 b.m21;
    m12 = inner a.m10 a.m11 a.m12 b.m02 b.m12 b.m22;
    m20 = inner a.m20 a.m21 a.m22 b.m00 b.m10 b.m20;
    m21 = inner a.m20 a.m21 a.m22 b.m01 b.m11 b.m21;
    m22 = inner a.m20 a.m21 a.m22 b.m02 b.m12 b.m22;
  }

  unfoldable pub matrix_transform : Mat3 W → Vec3 W → Vec3 W
  matrix_transform m v =
      vec3 ((m.m00 ⊗ v.x ⊕ m.m01 ⊗ v.y) ⊕ m.m02 ⊗ v.z) ((m.m10 ⊗ v.x ⊕ m.m11 ⊗ v.y) ⊕ m.m12 ⊗ v.z)
        ((m.m20 ⊗ v.x ⊕ m.m21 ⊗ v.y) ⊕ m.m22 ⊗ v.z)

  unfoldable pub conjugate_with_reflection : Mat3 W → Mat3 W
  unfolding reflection_matrix matrix_multiply
  conjugate_with_reflection basis =
      matrix_multiply (matrix_multiply reflection_matrix basis) reflection_matrix

  -- The matrix of a quaternion that is normalised.
  unfoldable pub basis_of : Quat W → Mat3 W
  basis_of n =
      let xx = n.x ⊗ n.x in
      let yy = n.y ⊗ n.y in
      let zz = n.z ⊗ n.z in
      let xy = n.x ⊗ n.y in
      let xz = n.x ⊗ n.z in
      let yz = n.y ⊗ n.z in
      let wx = n.w ⊗ n.x in
      let wy = n.w ⊗ n.y in
      let wz = n.w ⊗ n.z in
      record {
        m00 = unit ⊖ two ⊗ (yy ⊕ zz);
        m01 = two ⊗ (xy ⊖ wz);
        m02 = two ⊗ (xz ⊕ wy);
        m10 = two ⊗ (xy ⊕ wz);
        m11 = unit ⊖ two ⊗ (xx ⊕ zz);
        m12 = two ⊗ (yz ⊖ wx);
        m20 = two ⊗ (xz ⊖ wy);
        m21 = two ⊗ (yz ⊕ wx);
        m22 = unit ⊖ two ⊗ (xx ⊕ yy);
      }

  unfoldable pub basis_from_quaternion : Quat W → Mat3 W
  unfolding normalize_quaternion basis_of
  basis_from_quaternion q = basis_of (normalize_quaternion q)

  -- The four ways to find the quaternion of a matrix: from the trace, or from the largest entry of
  -- the diagonal.
  unfoldable pub raw_quaternion : Mat3 W → Quat W
  raw_quaternion m =
      let trace = (m.m00 ⊕ m.m11) ⊕ m.m22 in
      if d.lt nought trace
      then (let s = d.sqrt (trace ⊕ unit) ⊗ two in
          quat ((m.m21 ⊖ m.m12) ⊘ s) ((m.m02 ⊖ m.m20) ⊘ s) ((m.m10 ⊖ m.m01) ⊘ s) (quarter ⊗ s))
      else if d.lt m.m11 m.m00 && d.lt m.m22 m.m00
      then (let s = d.sqrt (((unit ⊕ m.m00) ⊖ m.m11) ⊖ m.m22) ⊗ two in
          quat (quarter ⊗ s) ((m.m01 ⊕ m.m10) ⊘ s) ((m.m02 ⊕ m.m20) ⊘ s) ((m.m21 ⊖ m.m12) ⊘ s))
      else if d.lt m.m22 m.m11
      then (let s = d.sqrt (((unit ⊕ m.m11) ⊖ m.m00) ⊖ m.m22) ⊗ two in
          quat ((m.m01 ⊕ m.m10) ⊘ s) (quarter ⊗ s) ((m.m12 ⊕ m.m21) ⊘ s) ((m.m02 ⊖ m.m20) ⊘ s))
      else (let s = d.sqrt (((unit ⊕ m.m22) ⊖ m.m00) ⊖ m.m11) ⊗ two in
          quat ((m.m02 ⊕ m.m20) ⊘ s) ((m.m12 ⊕ m.m21) ⊘ s) (quarter ⊗ s) ((m.m10 ⊖ m.m01) ⊘ s))

  unfoldable pub quaternion_from_basis : Mat3 W → Quat W
  unfolding raw_quaternion normalize_quaternion
  quaternion_from_basis basis =
      let out = raw_quaternion basis in
      normalize_quaternion (
        if d.lt out.w nought
        then quat (d.neg out.x) (d.neg out.y) (d.neg out.z) (d.neg out.w)
        else out)

  unfoldable pub position_godot_to_netsync : Vec3 W → Vec3 W
  unfolding reflection_matrix matrix_transform
  position_godot_to_netsync position = matrix_transform reflection_matrix position

  unfoldable pub position_netsync_to_godot : Vec3 W → Vec3 W
  unfolding reflection_matrix matrix_transform
  position_netsync_to_godot position = matrix_transform reflection_matrix position

  unfoldable pub basis_godot_to_netsync : Mat3 W → Mat3 W
  unfolding conjugate_with_reflection
  basis_godot_to_netsync basis = conjugate_with_reflection basis

  unfoldable pub basis_netsync_to_godot : Mat3 W → Mat3 W
  unfolding conjugate_with_reflection
  basis_netsync_to_godot basis = conjugate_with_reflection basis

  unfoldable pub rotation_godot_to_netsync : Quat W → Quat W
  rotation_godot_to_netsync q = quat (d.neg q.x) (d.neg q.y) q.z q.w

  unfoldable pub rotation_netsync_to_godot : Quat W → Quat W
  rotation_netsync_to_godot q = quat (d.neg q.x) (d.neg q.y) q.z q.w

  unfoldable pub yaw_degrees_godot_to_netsync : W → W
  yaw_degrees_godot_to_netsync yaw_degrees = d.neg yaw_degrees

  unfoldable pub yaw_degrees_netsync_to_godot : W → W
  yaw_degrees_netsync_to_godot yaw_degrees = d.neg yaw_degrees

  unfoldable pub transform_godot_to_netsync : PoseTransform W → PoseTransform W
  unfolding position_godot_to_netsync rotation_godot_to_netsync
  transform_godot_to_netsync pose = record {
    position = position_godot_to_netsync pose.position;
    rotation = rotation_godot_to_netsync pose.rotation;
  }

  unfoldable pub transform_netsync_to_godot : PoseTransform W → PoseTransform W
  unfolding position_netsync_to_godot rotation_netsync_to_godot
  transform_netsync_to_godot pose = record {
    position = position_netsync_to_godot pose.position;
    rotation = rotation_netsync_to_godot pose.rotation;
  }

-- ===== src/Godot/Agreement.antt =====
-- That the two forms of a rotation in src/godot/coordinate_converter.* are converted alike.
use styly_net_sync_godot.Base.{◌≡◌, refl, sym, ap, ◌∙◌, not, ◌||◌, inl, inr, Bool-cases}
use styly_net_sync_godot.Protocol.Pose.Double.{Double, ◌⊕◌, ◌⊖◌, ◌⊗◌, ◌⊘◌, nought, unit}
use styly_net_sync_godot.Protocol.Pose.Codec.{Vec3, Quat, vec3, normalize_quaternion}
use styly_net_sync_godot.Protocol.Pose.Body.{PoseTransform}
use styly_net_sync_godot.Godot.{
  Mat3, two, reflection_matrix, inner, matrix_multiply, matrix_transform, conjugate_with_reflection,
  basis_of, basis_from_quaternion, basis_godot_to_netsync, position_godot_to_netsync,
  position_netsync_to_godot, rotation_godot_to_netsync, rotation_netsync_to_godot,
  transform_godot_to_netsync, transform_netsync_to_godot,
}

-- What finite doubles obey if the two zeros count as one: a sign goes through every operation, and 0
-- and 1 do what they should.
pub record IsSigned (W : Type 0) ⦃d : Double W⦄ : Type 0 where
  pub zero_add : (x : W) → nought ⊕ x ≡ x
  pub add_zero : (x : W) → x ⊕ nought ≡ x
  pub one_mul : (x : W) → unit ⊗ x ≡ x
  pub mul_one : (x : W) → x ⊗ unit ≡ x
  pub zero_mul : (x : W) → nought ⊗ x ≡ nought
  pub mul_zero : (x : W) → x ⊗ nought ≡ nought
  pub neg_neg : (x : W) → d.neg (d.neg x) ≡ x
  pub neg_zero : d.neg nought ≡ nought
  pub neg_mul : (x y : W) → d.neg x ⊗ y ≡ d.neg (x ⊗ y)
  pub mul_neg : (x y : W) → x ⊗ d.neg y ≡ d.neg (x ⊗ y)
  pub add_neg : (x y : W) → d.neg x ⊕ d.neg y ≡ d.neg (x ⊕ y)
  pub sub_neg : (x y : W) → d.neg x ⊖ d.neg y ≡ d.neg (x ⊖ y)

module _ {W : Type 0} ⦃d : Double W⦄ (s : IsSigned W) where
  square : (x : W) → d.neg x ⊗ d.neg x ≡ x ⊗ x
  square x = s.neg_mul x (d.neg x) ∙ ap d.neg (s.mul_neg x x) ∙ s.neg_neg (x ⊗ x)

  both : (x y : W) → d.neg x ⊗ d.neg y ≡ x ⊗ y
  both x y = s.neg_mul x (d.neg y) ∙ ap d.neg (s.mul_neg x y) ∙ s.neg_neg (x ⊗ y)

  -- Normalising commutes with the change of sign.
  normalize-rotation :
      (q : Quat W)
      → normalize_quaternion (rotation_godot_to_netsync q)
        ≡ rotation_godot_to_netsync (normalize_quaternion q)
  unfolding normalize_quaternion rotation_godot_to_netsync
  normalize-rotation q =
      rw (square q.x, square q.y)
        (let mag_sq = q.x ⊗ q.x ⊕ q.y ⊗ q.y ⊕ q.z ⊗ q.z ⊕ q.w ⊗ q.w in
          elim (Bool-cases (not (d.is_finite mag_sq) || d.le mag_sq (d.decimal 1 12))) [
            | inl degenerate ↦ rw (degenerate, s.neg_zero) refl
            | inr regular ↦
                rw
                  (
                    regular,
                    s.neg_mul q.x (unit ⊘ d.sqrt mag_sq),
                    s.neg_mul q.y (unit ⊘ d.sqrt mag_sq),
                  )
                  refl
          ])

  -- Conjugation changes the sign of the entries that mix the third axis with the others.
  abbrev reflected : Mat3 W → Mat3 W
  reflected m = record {
    m00 = m.m00;
    m01 = m.m01;
    m02 = d.neg m.m02;
    m10 = m.m10;
    m11 = m.m11;
    m12 = d.neg m.m12;
    m20 = d.neg m.m20;
    m21 = d.neg m.m21;
    m22 = m.m22;
  }

  row_first : (a b c : W) → inner unit nought nought a b c ≡ a
  row_first a b c =
      rw (s.one_mul a, s.zero_mul b, s.zero_mul c, s.zero_add a, s.add_zero a, s.add_zero a) refl

  row_second : (a b c : W) → inner nought unit nought a b c ≡ b
  row_second a b c =
      rw (s.one_mul b, s.zero_mul a, s.zero_mul c, s.zero_add nought, s.zero_add b, s.add_zero b)
        refl

  row_third : (a b c : W) → inner nought nought (d.neg unit) a b c ≡ d.neg c
  row_third a b c =
      rw
        (
          s.neg_mul unit c,
          s.one_mul c,
          s.zero_mul a,
          s.zero_mul b,
          s.zero_add nought,
          s.zero_add nought,
          s.zero_add (d.neg c),
        )
        refl

  column_first : (a b c : W) → inner a b c unit nought nought ≡ a
  column_first a b c =
      rw (s.mul_one a, s.mul_zero b, s.mul_zero c, s.zero_add a, s.add_zero a, s.add_zero a) refl

  column_second : (a b c : W) → inner a b c nought unit nought ≡ b
  column_second a b c =
      rw (s.mul_one b, s.mul_zero a, s.mul_zero c, s.zero_add nought, s.zero_add b, s.add_zero b)
        refl

  column_third : (a b c : W) → inner a b c nought nought (d.neg unit) ≡ d.neg c
  column_third a b c =
      rw
        (
          s.mul_neg c unit,
          s.mul_one c,
          s.mul_zero a,
          s.mul_zero b,
          s.zero_add nought,
          s.zero_add nought,
          s.zero_add (d.neg c),
        )
        refl

  -- The third row, and the third column, with the other sign.
  abbrev row_flipped : Mat3 W → Mat3 W
  row_flipped m = record m { m20 = d.neg m.m20; m21 = d.neg m.m21; m22 = d.neg m.m22 }

  abbrev column_flipped : Mat3 W → Mat3 W
  column_flipped m = record m { m02 = d.neg m.m02; m12 = d.neg m.m12; m22 = d.neg m.m22 }

  multiply-row_flipped : (m : Mat3 W) → matrix_multiply reflection_matrix m ≡ row_flipped m
  unfolding matrix_multiply reflection_matrix
  multiply-row_flipped m = λ i. record {
    m00 = row_first m.m00 m.m10 m.m20 i;
    m01 = row_first m.m01 m.m11 m.m21 i;
    m02 = row_first m.m02 m.m12 m.m22 i;
    m10 = row_second m.m00 m.m10 m.m20 i;
    m11 = row_second m.m01 m.m11 m.m21 i;
    m12 = row_second m.m02 m.m12 m.m22 i;
    m20 = row_third m.m00 m.m10 m.m20 i;
    m21 = row_third m.m01 m.m11 m.m21 i;
    m22 = row_third m.m02 m.m12 m.m22 i;
  }

  multiply-column_flipped : (m : Mat3 W) → matrix_multiply m reflection_matrix ≡ column_flipped m
  unfolding matrix_multiply reflection_matrix
  multiply-column_flipped m = λ i. record {
    m00 = column_first m.m00 m.m01 m.m02 i;
    m01 = column_second m.m00 m.m01 m.m02 i;
    m02 = column_third m.m00 m.m01 m.m02 i;
    m10 = column_first m.m10 m.m11 m.m12 i;
    m11 = column_second m.m10 m.m11 m.m12 i;
    m12 = column_third m.m10 m.m11 m.m12 i;
    m20 = column_first m.m20 m.m21 m.m22 i;
    m21 = column_second m.m20 m.m21 m.m22 i;
    m22 = column_third m.m20 m.m21 m.m22 i;
  }

  conjugate-reflected : (m : Mat3 W) → conjugate_with_reflection m ≡ reflected m
  unfolding conjugate_with_reflection
  conjugate-reflected m =
      ap (λ x. matrix_multiply x reflection_matrix) (multiply-row_flipped m)
      ∙ multiply-column_flipped (row_flipped m)
      ∙ (λ i. record (reflected m) { m22 = s.neg_neg m.m22 i })

  doubled : (x y : W) → two ⊗ (d.neg x ⊕ d.neg y) ≡ d.neg (two ⊗ (x ⊕ y))
  doubled x y = ap (λ t. two ⊗ t) (s.add_neg x y) ∙ s.mul_neg two (x ⊕ y)

  halved : (x y : W) → two ⊗ (d.neg x ⊖ d.neg y) ≡ d.neg (two ⊗ (x ⊖ y))
  halved x y = ap (λ t. two ⊗ t) (s.sub_neg x y) ∙ s.mul_neg two (x ⊖ y)

  basis_of-rotation : (n : Quat W) → basis_of (rotation_godot_to_netsync n) ≡ reflected (basis_of n)
  unfolding basis_of rotation_godot_to_netsync
  basis_of-rotation n =
      rw
        (
          square n.x,
          square n.y,
          both n.x n.y,
          s.neg_mul n.x n.z,
          s.neg_mul n.y n.z,
          s.mul_neg n.w n.x,
          s.mul_neg n.w n.y,
          doubled (n.x ⊗ n.z) (n.w ⊗ n.y),
          halved (n.y ⊗ n.z) (n.w ⊗ n.x),
          halved (n.x ⊗ n.z) (n.w ⊗ n.y),
          doubled (n.y ⊗ n.z) (n.w ⊗ n.x),
        )
        refl

  transform-reflected :
      (v : Vec3 W) → matrix_transform reflection_matrix v ≡ vec3 v.x v.y (d.neg v.z)
  unfolding matrix_transform reflection_matrix
  transform-reflected v =
      rw
        (
          s.one_mul v.x,
          s.one_mul v.y,
          s.zero_mul v.x,
          s.zero_mul v.y,
          s.zero_mul v.z,
          s.neg_mul unit v.z,
          s.one_mul v.z,
          s.add_zero v.x,
          s.add_zero v.x,
          s.zero_add v.y,
          s.add_zero v.y,
          s.zero_add nought,
          s.zero_add (d.neg v.z),
        )
        refl

  position-back : (v : Vec3 W) → position_netsync_to_godot (position_godot_to_netsync v) ≡ v
  unfolding position_netsync_to_godot position_godot_to_netsync
  position-back v =
      ap (matrix_transform reflection_matrix) (transform-reflected v)
      ∙ transform-reflected (vec3 v.x v.y (d.neg v.z))
      ∙ (λ i. record v { z = s.neg_neg v.z i })

  -- Converting a rotation as a quaternion and converting it as a matrix are the same, and a pose
  -- that is converted to the wire's coordinates and back is what it was, if the numbers obey the
  -- named laws of signs, as finite doubles do when the two zeros count as one.
  pub basis-rotation :
      (q : Quat W) (pose : PoseTransform W)
      → (basis_from_quaternion (rotation_godot_to_netsync q)
          ≡ basis_godot_to_netsync (basis_from_quaternion q))
        × (transform_netsync_to_godot (transform_godot_to_netsync pose) ≡ pose)
  unfolding basis_from_quaternion basis_godot_to_netsync transform_netsync_to_godot
      transform_godot_to_netsync rotation_godot_to_netsync rotation_netsync_to_godot
  basis-rotation q pose = (
    ap basis_of (normalize-rotation q)
        ∙ basis_of-rotation (normalize_quaternion q)
        ∙ sym (conjugate-reflected (basis_of (normalize_quaternion q))),
    (λ i. record {
      position = position-back pose.position i;
      rotation = record {
        x = s.neg_neg pose.rotation.x i;
        y = s.neg_neg pose.rotation.y i;
        z = pose.rotation.z;
        w = pose.rotation.w;
      };
    }),
  )

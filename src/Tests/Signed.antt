-- ===== src/Tests/Signed.antt =====
-- The thousandths of Tests.Fixed obey the laws of signs, and a rotation that is converted.
use styly_net_sync_godot.Base.{
  ℕ, zero, suc, ◌≤◌, ◌<◌, leb, leb→le, leb→lt, inl, inr, Bool-cases, ◌+◌, ◌-◌, ◌*◌, ◌/◌, ◌≡◌, refl,
  sym, ap, ◌∙◌, arith, Bool, true, false, not,
}
use native.Mathlib.Nat as Nat
use styly_net_sync_godot.Base.Int.{ℤ, pos, negsuc}
use styly_net_sync_godot.Protocol.Pose.Double.{minus, ◌⊗◌, unit}
use styly_net_sync_godot.Protocol.Pose.Codec.{Quat, quat}
use styly_net_sync_godot.Godot.{
  basis_from_quaternion, basis_godot_to_netsync, rotation_godot_to_netsync,
  transform_godot_to_netsync, transform_netsync_to_godot,
}
use styly_net_sync_godot.Godot.Agreement.{IsSigned, basis-rotation}
use styly_net_sync_godot.Tests.Fixed.{
  fixed_double, minus_nat, magnitude, negative, signed, unequal, opposite, plus,
}
use styly_net_sync_godot.Tests.Pose.{raised}

opposite-opposite : (x : ℤ) → opposite (opposite x) ≡ x
opposite-opposite (pos zero) = refl
opposite-opposite (pos (suc n)) = refl
opposite-opposite (negsuc n) = refl

opposite-signed : (b : Bool) (n : ℕ) → signed (not b) n ≡ opposite (signed b n)
opposite-signed true zero = refl
opposite-signed true (suc n) = refl
opposite-signed false n = refl

abbrev half : Quat ℤ
half = quat (pos 500) (negsuc 499) (pos 500) (pos 500)

opposite-minus : (n : ℕ) → opposite (minus n) ≡ pos n
opposite-minus zero = refl
opposite-minus (suc n) = refl

minus_zero : (n : ℕ) → n ≡ 0 → minus n ≡ pos 0
minus_zero n e = ap minus e

minus_suc : (n : ℕ) → 0 < n → minus n ≡ negsuc (n - 1)
minus_suc zero h = absurd (omega arith)
minus_suc (suc n) h = ap negsuc (omega arith)

minus_nat_le : (m n : ℕ) → n ≤ m → minus_nat m n ≡ pos (m - n)
minus_nat_le m n h = ground arith

minus_nat_lt : (m n : ℕ) → m < n → minus_nat m n ≡ negsuc (n - m - 1)
minus_nat_lt m n h = ground arith

opposite-minus_nat : (m n : ℕ) → opposite (minus_nat m n) ≡ minus_nat n m
opposite-minus_nat m n = elim (Bool-cases (leb n m)) [
  | inr below ↦
      let h : m < n = leb→lt n m below in
      ap opposite (minus_nat_lt m n h) ∙ ap pos (omega arith) ∙ sym (minus_nat_le n m (omega arith))
  | inl above ↦ elim (Bool-cases (leb m n)) [
    | inr more ↦
        let h : n < m = leb→lt m n more in
        ap opposite (minus_nat_le m n (omega arith))
        ∙ minus_suc (m - n) (omega arith)
        ∙ sym (minus_nat_lt n m h)
    | inl same ↦
        let (h, k) : (n ≤ m) × (m ≤ n) = (leb→le n m above, leb→le m n same) in
        ap opposite (minus_nat_le m n h)
        ∙ minus_zero (m - n) (omega arith)
        ∙ ap pos (omega arith)
        ∙ sym (minus_nat_le n m k)
  ]
]

opposite-plus : (x y : ℤ) → plus (opposite x) (opposite y) ≡ opposite (plus x y)
opposite-plus (pos zero) (pos zero) = refl
opposite-plus (pos zero) (pos (suc b)) =
    minus_nat_lt 0 (suc b) (omega arith)
    ∙ ap negsuc (omega arith)
    ∙ sym (minus_suc (0 + suc b) (omega arith))
opposite-plus (pos (suc a)) (pos zero) =
    minus_nat_lt 0 (suc a) (omega arith)
    ∙ ap negsuc (omega arith)
    ∙ sym (minus_suc (suc a + 0) (omega arith))
opposite-plus (pos (suc a)) (pos (suc b)) =
    ap negsuc (omega arith) ∙ sym (minus_suc (suc a + suc b) (omega arith))
opposite-plus (pos zero) (negsuc b) =
    ap pos (omega arith) ∙ sym (ap opposite (minus_nat_lt 0 (suc b) (omega arith)))
opposite-plus (pos (suc a)) (negsuc b) = sym (opposite-minus_nat (suc a) (suc b))
opposite-plus (negsuc a) (pos zero) =
    ap pos (omega arith) ∙ sym (ap opposite (minus_nat_lt 0 (suc a) (omega arith)))
opposite-plus (negsuc a) (pos (suc b)) = sym (opposite-minus_nat (suc b) (suc a))
opposite-plus (negsuc a) (negsuc b) = ap pos (omega arith)

signed_zero : (b : Bool) (n : ℕ) → n ≡ 0 → signed b n ≡ pos 0
signed_zero true n e = rw e refl
signed_zero false n e = rw e refl

opposite-signed-not : (b : Bool) (n : ℕ) → signed b n ≡ opposite (signed (not b) n)
opposite-signed-not true zero = refl
opposite-signed-not true (suc n) = refl
opposite-signed-not false n = sym (opposite-minus n)

one_mul : (x : ℤ) → unit {W = ℤ} ⊗ x ≡ x
one_mul (pos n) = ap pos (omega arith)
one_mul (negsuc n) = ap minus (m n)
  where
    m : (n : ℕ) → 1000 * suc n / 1000 ≡ suc n
    m n = omega arith

zero_mul : (x : ℤ) → pos 0 ⊗ x ≡ pos 0
zero_mul x = signed_zero (negative x) (0 * magnitude x / 1000) (omega arith)

neg_mul : (x y : ℤ) → opposite x ⊗ y ≡ opposite (x ⊗ y)
neg_mul (pos zero) y =
    signed_zero (negative y) (0 * magnitude y / 1000) (omega arith)
    ∙ sym (ap opposite (signed_zero (negative y) (0 * magnitude y / 1000) (omega arith)))
neg_mul (pos (suc n)) y = opposite-signed (negative y) (suc n * magnitude y / 1000)
neg_mul (negsuc n) y = opposite-signed-not (negative y) (suc n * magnitude y / 1000)

unequal_comm : (a b : Bool) → unequal a b ≡ unequal b a
unequal_comm true true = refl
unequal_comm true false = refl
unequal_comm false true = refl
unequal_comm false false = refl

mul_comm : (x y : ℤ) → x ⊗ y ≡ y ⊗ x
mul_comm x y = λ i. signed (unequal_comm (negative x) (negative y) i) (products i / 1000)
  where
    products : magnitude x * magnitude y ≡ magnitude y * magnitude x
    products = Nat.mul_comm (magnitude x) (magnitude y)

zero_add : (x : ℤ) → plus (pos 0) x ≡ x
zero_add (pos n) = ap pos (omega arith)
zero_add (negsuc n) = minus_nat_lt 0 (suc n) (omega arith) ∙ ap negsuc (omega arith)

add_zero : (x : ℤ) → plus x (pos 0) ≡ x
add_zero (pos n) = ap pos (omega arith)
add_zero (negsuc n) = minus_nat_lt 0 (suc n) (omega arith) ∙ ap negsuc (omega arith)

fixed-IsSigned : IsSigned ℤ
fixed-IsSigned = record {
  zero_add = zero_add;
  add_zero = add_zero;
  one_mul = one_mul;
  mul_one = λ x. mul_comm x unit ∙ one_mul x;
  zero_mul = zero_mul;
  mul_zero = λ x. mul_comm x (pos 0) ∙ zero_mul x;
  neg_neg = opposite-opposite;
  neg_zero = refl;
  neg_mul = neg_mul;
  mul_neg = λ x y. mul_comm x (opposite y) ∙ neg_mul y x ∙ ap opposite (mul_comm y x);
  add_neg = opposite-plus;
  sub_neg = λ x y. opposite-plus x (opposite y);
}

basis-rotation_example :
    (basis_from_quaternion (rotation_godot_to_netsync half)
      ≡ basis_godot_to_netsync (basis_from_quaternion half))
    × (transform_netsync_to_godot (transform_godot_to_netsync raised) ≡ raised)
basis-rotation_example = basis-rotation fixed-IsSigned half raised

-- ===== src/Tests/Fixed.antt =====
-- A number type at which the theorems over `Double` apply: thousandths, without NaN or infinity. It
-- meets the laws that the theorems assume. They say nothing of the roots and angles of <cmath>,
-- which are exact here where there is no rotation.
use styly_net_sync_godot.Base.{
  ℕ, zero, suc, ◌+◌, ◌-◌, ◌*◌, ◌/◌, ◌%◌, ◌^◌, ◌≤◌, ◌≡◌, refl, Bool, true, false, not, arith, leb,
  if◌then◌else◌,
}
use styly_net_sync_godot.Base.Int.{ℤ, pos, negsuc, eq_ℤ, ltb_ℤ}
use styly_net_sync_godot.Protocol.Pose.Double.{Double, IsIeee, Between, minus}

abbrev pub minus_nat : ℕ → ℕ → ℤ
minus_nat m n = if leb n m then pos (m - n) else negsuc (n - m - 1)

abbrev pub magnitude : ℤ → ℕ
magnitude (pos n) = n
magnitude (negsuc n) = suc n

abbrev pub negative : ℤ → Bool
negative (pos n) = false
negative (negsuc n) = true

abbrev pub signed : Bool → ℕ → ℤ
signed true n = minus n
signed false n = pos n

abbrev pub unequal : Bool → Bool → Bool
unequal true b = not b
unequal false b = b

abbrev pub opposite : ℤ → ℤ
opposite x = signed (not (negative x)) (magnitude x)

abbrev pub plus : ℤ → ℤ → ℤ
plus (pos a) (pos b) = pos (a + b)
plus (pos a) (negsuc b) = minus_nat a (suc b)
plus (negsuc a) (pos b) = minus_nat b (suc a)
plus (negsuc a) (negsuc b) = negsuc (a + b + 1)

abbrev quotient : ℕ → ℕ → ℕ
quotient m zero = 0
quotient m (suc n) = m / suc n

abbrev rest_of : ℕ → ℕ → ℕ
rest_of m zero = 0
rest_of m (suc n) = m % suc n

abbrev whole : ℤ → ℤ
whole (pos n) = pos (n / 1000 * 1000)
whole (negsuc n) = negsuc (n / 1000 * 1000 + 999)

abbrev thousand : ℤ → ℤ
thousand (pos n) = pos (n * 1000)
thousand (negsuc n) = negsuc (n * 1000 + 999)

abbrev truncated : ℤ → ℤ
truncated (pos n) = pos (n / 1000)
truncated (negsuc n) = minus (suc n / 1000)

abbrev positive_part : ℤ → ℕ
positive_part (pos n) = n / 1000
positive_part (negsuc n) = 0

instance abbrev pub fixed_double : Double ℤ
fixed_double = record {
  add = plus;
  sub = λ x y. plus x (opposite y);
  mul = λ x y. signed (unequal (negative x) (negative y)) (magnitude x * magnitude y / 1000);
  div = λ x y.
      signed (unequal (negative x) (negative y)) (quotient (magnitude x * 1000) (magnitude y));
  neg = opposite;
  lt = ltb_ℤ;
  le = λ x y. not (ltb_ℤ y x);
  eq = eq_ℤ;
  is_finite = λ _. true;
  is_nan = λ _. false;
  floor = whole;
  fmod = λ x y. signed (negative x) (rest_of (magnitude x) (magnitude y));
  sqrt = λ x. x;
  fabs = λ x. pos (magnitude x);
  sin = λ x. pos 0;
  cos = λ x. pos 1000;
  atan2 = λ x y. pos 0;
  decimal = λ n k. pos (quotient (n * 1000) (10 ^ k));
  of_int = thousand;
  to_int = truncated;
  to_uint = positive_part;
}

Between-minus_le : (q a b : ℕ) → q ≤ a → Between (minus q) a b
Between-minus_le zero a b h = omega arith
Between-minus_le (suc q) a b h = omega arith

within : (n a : ℕ) → n ≤ a * 1000 + 999 → suc n / 1000 ≤ suc a
within n a h = omega arith

to_int-Between_lem :
    (x : ℤ) (a b : ℕ)
    → not (ltb_ℤ x (thousand (minus a))) ≡ true
    → ltb_ℤ (pos (b * 1000)) x ≡ false
    → Between (truncated x) a b
to_int-Between_lem (pos n) a b h1 h2 = ground (arith, h1, h2)
to_int-Between_lem (negsuc n) zero b h1 h2 = ground (arith, h1, h2)
to_int-Between_lem (negsuc n) (suc a) b h1 h2 =
    Between-minus_le (suc n / 1000) (suc a) b (within n a (ground (arith, h1)))

to_uint-le_lem : (x : ℤ) (b : ℕ) → ltb_ℤ (pos (b * 1000)) x ≡ false → positive_part x ≤ b
to_uint-le_lem (pos n) b h = ground (arith, h)
to_uint-le_lem (negsuc n) b h = omega arith

lt_irrefl_lem : (x : ℤ) → ltb_ℤ x x ≡ false
lt_irrefl_lem (pos n) = ground arith
lt_irrefl_lem (negsuc n) = ground arith

pub fixed-IsIeee : IsIeee ℤ
fixed-IsIeee = record {
  le-not-lt = λ x y hx hy h. ground (arith, h);
  is_nan-of_int = λ n. refl;
  is_nan-floor = λ x h. refl;
  is_nan-floor_unit = λ x h. refl;
  decimal-of_int = refl;
  to_int-Between = λ x a b ha hb h1 h2. to_int-Between_lem x a b h1 h2;
  to_uint-le = λ x b hb h1 h2. to_uint-le_lem x b h2;
  le_refl = λ n. ground (arith, lt_irrefl_lem (thousand n));
  le_of_int = λ b hb. ground arith;
  lt-of_int = λ b hb. ground arith;
  lt_irrefl = λ n. lt_irrefl_lem (thousand n);
}

-- ===== src/Protocol/Pose/Double.antt =====
-- All that the code does with a `double`: C++'s arithmetic and the functions of <cmath>. A literal
-- is `decimal n k`, the double nearest to n / 10 ^ k, and an integer is converted by `of_int`.
use styly_net_sync_godot.Base.{ℕ, zero, suc, ◌^◌, ◌≤◌, ◌<◌, ◌≡◌, Bool, true, false}
use styly_net_sync_godot.Base.Int.{ℤ, pos, negsuc}

pub record Double {ℓ} (W : Type ℓ) : Type ℓ where
  pub add : W → W → W
  pub sub : W → W → W
  pub mul : W → W → W
  pub div : W → W → W
  pub neg : W → W
  pub lt : W → W → Bool
  pub le : W → W → Bool
  pub eq : W → W → Bool
  pub is_finite : W → Bool
  pub is_nan : W → Bool
  pub floor : W → W
  pub fmod : W → W → W
  pub sqrt : W → W
  pub fabs : W → W
  pub sin : W → W
  pub cos : W → W
  pub atan2 : W → W → W
  pub decimal : ℕ → ℕ → W
  pub of_int : ℤ → W
  -- `static_cast<int32_t>` and `static_cast<uint32_t>`
  pub to_int : W → ℤ
  pub to_uint : W → ℕ

infixl 34 ◌⊕◌ ◌⊖◌
infixl 35 ◌⊗◌ ◌⊘◌
module _ {ℓ} {W : Type ℓ} ⦃d : Double W⦄ where
  abbrev pub ◌⊕◌ : W → W → W
  ◌⊕◌ = d.add

  abbrev pub ◌⊖◌ : W → W → W
  ◌⊖◌ = d.sub

  abbrev pub ◌⊗◌ : W → W → W
  ◌⊗◌ = d.mul

  abbrev pub ◌⊘◌ : W → W → W
  ◌⊘◌ = d.div

  abbrev pub nought : W
  nought = d.decimal 0 0

  abbrev pub unit : W
  unit = d.decimal 1 0

-- `Between n a b`: -a ≤ n ≤ b.
abbrev pub Between : ℤ → ℕ → ℕ → Type 0
Between (pos n) a b = n ≤ b
Between (negsuc n) a b = n < a

-- `-a` for the constants `-32768` and `-(1 << 23)`
abbrev pub minus : ℕ → ℤ
minus zero = pos 0
minus (suc n) = negsuc n

-- What IEEE 754 and C++ say of these operations, as far as the quantisers rely on it: integers of
-- 32 bits are exact, a cast truncates a value that is in range, comparisons are false on NaN only
-- where they must be, and finite values do not add up to NaN.
pub record IsIeee {ℓ} (W : Type ℓ) ⦃d : Double W⦄ : Type ℓ where
  pub le-not-lt :
      (x y : W) → d.is_nan x ≡ false → d.is_nan y ≡ false → d.lt x y ≡ false → d.le y x ≡ true
  pub is_nan-of_int : (n : ℤ) → d.is_nan (d.of_int n) ≡ false
  pub is_nan-floor : (x : W) → d.is_finite x ≡ true → d.is_nan (d.floor x) ≡ false
  pub is_nan-floor_unit :
      (x : W) → d.is_finite x ≡ true → d.is_nan (d.add (d.floor x) (d.decimal 1 0)) ≡ false
  pub decimal-of_int : d.decimal 0 0 ≡ d.of_int (pos 0)
  pub to_int-Between :
      (x : W) (a b : ℕ)
      → a ≤ 2 ^ 31
      → b < 2 ^ 31
      → d.le (d.of_int (minus a)) x ≡ true
      → d.lt (d.of_int (pos b)) x ≡ false
      → Between (d.to_int x) a b
  pub to_uint-le :
      (x : W) (b : ℕ)
      → b < 2 ^ 31
      → d.le (d.of_int (pos 0)) x ≡ true
      → d.lt (d.of_int (pos b)) x ≡ false
      → d.to_uint x ≤ b
  pub le_refl : (n : ℤ) → d.le (d.of_int n) (d.of_int n) ≡ true
  pub le_of_int : (b : ℕ) → b < 2 ^ 31 → d.le (d.of_int (pos 0)) (d.of_int (pos b)) ≡ true
  pub lt-of_int : (b : ℕ) → b < 2 ^ 31 → d.lt (d.of_int (pos b)) (d.of_int (pos 0)) ≡ false
  pub lt_irrefl : (n : ℤ) → d.lt (d.of_int n) (d.of_int n) ≡ false

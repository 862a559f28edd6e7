-- ===== src/Base/Keys.antt =====
-- Keys of `std::map` and `std::set`: a type with the tests `==` and `<`.
use Prim.Native.Nat.{ℕ}
use mathlib.Core.Path.{◌≡◌}
use mathlib.Core.Logic.{◌↔◌}
use mathlib.Core.Bool.{Bool, true, false, ◌&&◌, ◌||◌}
use mathlib.Core.List.{List, [], ◌∷◌}
use native.Mathlib.Omega.{arith}
use styly_net_sync_godot.Base.Tests.{ltb, ◌==◌, ==_iff}
use styly_net_sync_godot.Base.Int.{ℤ, eq_ℤ, ltb_ℤ, eq_ℤ_iff}

pub record Key {ℓ} (K : Type ℓ) : Type ℓ where
  pub beq : K → K → Bool
  pub blt : K → K → Bool
  pub beq_iff : (a b : K) → (beq a b ≡ true) ↔ (a ≡ b)

-- Byte strings, in the order of `std::string::compare`.
abbrev pub bytes_eq : List ℕ → List ℕ → Bool
bytes_eq [] [] = true
bytes_eq [] (y ∷ ys) = false
bytes_eq (x ∷ xs) [] = false
bytes_eq (x ∷ xs) (y ∷ ys) = x == y && bytes_eq xs ys

abbrev pub bytes_lt : List ℕ → List ℕ → Bool
bytes_lt xs [] = false
bytes_lt [] (y ∷ ys) = true
bytes_lt (x ∷ xs) (y ∷ ys) = ltb x y || (x == y && bytes_lt xs ys)

pub bytes_eq_iff : (xs ys : List ℕ) → (bytes_eq xs ys ≡ true) ↔ (xs ≡ ys)
bytes_eq_iff [] [] = ground arith
bytes_eq_iff [] (y ∷ ys) = ground arith
bytes_eq_iff (x ∷ xs) [] = ground arith
bytes_eq_iff (x ∷ xs) (y ∷ ys) = ground (arith, bytes_eq_iff xs ys)

instance abbrev pub nat_key : Key ℕ
nat_key = record { beq = ◌==◌; blt = ltb; beq_iff = ==_iff }

instance abbrev pub int_key : Key ℤ
int_key = record { beq = eq_ℤ; blt = ltb_ℤ; beq_iff = eq_ℤ_iff }

instance abbrev pub bytes_key : Key (List ℕ)
bytes_key = record { beq = bytes_eq; blt = bytes_lt; beq_iff = bytes_eq_iff }

-- `std::pair<int, std::string>`, ordered by the first part and then by the second.
abbrev pub pair_eq : ℤ × List ℕ → ℤ × List ℕ → Bool
pair_eq (a, s) (b, t) = eq_ℤ a b && bytes_eq s t

abbrev pub pair_lt : ℤ × List ℕ → ℤ × List ℕ → Bool
pair_lt (a, s) (b, t) = ltb_ℤ a b || (eq_ℤ a b && bytes_lt s t)

pub pair_eq_iff : (p q : ℤ × List ℕ) → (pair_eq p q ≡ true) ↔ (p ≡ q)
pair_eq_iff (a, s) (b, t) = ground (arith, eq_ℤ_iff a b, bytes_eq_iff s t)

instance abbrev pub pair_key : Key (ℤ × List ℕ)
pair_key = record { beq = pair_eq; blt = pair_lt; beq_iff = pair_eq_iff }

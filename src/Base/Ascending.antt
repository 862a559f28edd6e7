-- ===== src/Base/Ascending.antt =====
-- The order of a `std::map` whose keys are numbers.
use Prim.Native.Nat.{ℕ, ◌<◌, ◌≤◌}
use mathlib.Core.Path.{◌≡◌, refl}
use mathlib.Core.Bool.{false}
use mathlib.Core.List.{[], ◌∷◌}
use native.Mathlib.Omega.{arith}
use styly_net_sync_godot.Base.Keys.{nat_key}
use styly_net_sync_godot.Base.Dict.{Dict, has, insert}

module _ {ℓ} {V : Type ℓ} where
  -- All keys are larger than `k`.
  abbrev pub Above : ℕ → Dict ℕ V → Type 0
  Above k [] = Unit
  Above k ((j, v) ∷ m) = (k < j) × Above k m

  abbrev pub Ascending : Dict ℕ V → Type 0
  Ascending [] = Unit
  Ascending ((k, v) ∷ m) = Above k m × Ascending m

  pub has-Above : (k : ℕ) (m : Dict ℕ V) → Above k m → has k m ≡ false
  unfolding has
  has-Above k [] h = refl
  has-Above k ((j, v) ∷ m) h = ground (arith, has-Above k m h.1)

  Above-le : (i k : ℕ) (m : Dict ℕ V) → i ≤ k → Above k m → Above i m
  Above-le i k [] le h = tt
  Above-le i k ((j, v) ∷ m) le h = (omega (arith, h.0), Above-le i k m le h.1)

  insert-Above : (i k : ℕ) (v : V) (m : Dict ℕ V) → i < k → Above i m → Above i (insert k v m)
  unfolding insert
  insert-Above i k v [] lt h = (lt, tt)
  insert-Above i k v ((j, w) ∷ m) lt h = ground (arith, insert-Above i k v m lt h.1)

  pub insert-Ascending : (k : ℕ) (v : V) (m : Dict ℕ V) → Ascending m → Ascending (insert k v m)
  unfolding insert
  insert-Ascending k v [] h = (tt, tt)
  insert-Ascending k v ((j, w) ∷ m) h =
      ground (arith, insert-Ascending k v m h.1, Above-le k j m, insert-Above j k v m)

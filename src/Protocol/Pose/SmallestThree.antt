-- ===== src/Protocol/Pose/SmallestThree.antt =====
-- The smallest-three quaternion codec of src/protocol/pose_codec.cpp.
use styly_net_sync_godot.Base.{
  ℕ, zero, suc, ◌+◌, ◌*◌, ◌/◌, ◌%◌, ◌^◌, not, List, [], ◌∷◌, map, get_or, if◌then◌else◌,
}
use styly_net_sync_godot.Base.Int.{pos}
use styly_net_sync_godot.Protocol.Pose.Double.{Double, ◌⊕◌, ◌⊖◌, ◌⊗◌, ◌⊘◌, nought, unit}
use styly_net_sync_godot.Protocol.Pose.Codec.{Quat, quat, round_half_to_even, normalize_quaternion}

-- The four components but the one at `i`, in order.
abbrev pub without {ℓ} : {A : Type ℓ} → ℕ → List A → List A
without i [] = []
without zero (x ∷ xs) = xs
without (suc i) (x ∷ xs) = x ∷ without i xs

-- The components with `v` put back at `i`.
abbrev pub with_at {ℓ} : {A : Type ℓ} → ℕ → A → List A → List A
with_at zero v xs = v ∷ xs
with_at (suc i) v [] = v ∷ []
with_at (suc i) v (x ∷ xs) = x ∷ with_at i v xs

-- The bits that `|=` joins do not overlap, so it adds.
abbrev pub pack_three : List ℕ → ℕ
pack_three bits = get_or bits 0 0 * 2 ^ 20 + get_or bits 1 0 * 2 ^ 10 + get_or bits 2 0

module _ {W : Type 0} ⦃d : Double W⦄ where
  abbrev pub component_max : W
  component_max = d.decimal 70_710_677 8

  abbrev pub component_min : W
  component_min = d.neg (d.decimal 70_710_677 8)

  -- One round of the scan: a strictly larger magnitude moves the index.
  abbrev pub larger : List W → ℕ → ℕ → ℕ
  larger abs_values i best =
      if d.lt (get_or abs_values best nought) (get_or abs_values i nought) then i else best

  unfoldable pub largest_index : List W → ℕ
  largest_index abs_values = larger abs_values 3 (larger abs_values 2 (larger abs_values 1 0))

  -- The four values, negated when the largest is negative.
  unfoldable pub canonical : List W → ℕ → List W
  canonical values largest =
      if d.lt (get_or values largest nought) nought then map d.neg values else values

  -- The cast of a value that is first put into 0 to 1023.
  unfoldable pub ten_bits : W → ℕ
  ten_bits scaled =
      let at_least = if not (d.le nought scaled) then nought else scaled in
      let at_most = if d.lt (d.of_int (pos 1023)) at_least then d.of_int (pos 1023) else at_least in
      d.to_uint at_most

  -- One component as ten bits.
  unfoldable pub pack_component : W → ℕ
  unfolding round_half_to_even ten_bits
  pack_component v =
      let raised = if d.lt v component_min then component_min else v in
      let clamped = if d.lt component_max raised then component_max else raised in
      let normalized = (clamped ⊖ component_min) ⊘ (component_max ⊖ component_min) in
      ten_bits (round_half_to_even (normalized ⊗ d.of_int (pos 1023)))

  -- What is packed: the index of the component that is left out, and the other three.
  unfoldable pub largest_and_others : Quat W → ℕ × List W
  unfolding normalize_quaternion largest_index canonical
  largest_and_others q =
      let n = normalize_quaternion q in
      let values = n.x ∷ n.y ∷ n.z ∷ n.w ∷ [] in
      let largest = largest_index (map d.fabs values) in
      (largest, without largest (canonical values largest))

  unfoldable pub compress_quaternion_smallest_three : Quat W → ℕ
  unfolding largest_and_others pack_component
  compress_quaternion_smallest_three q =
      let (largest, others) = largest_and_others q in
      largest * 2 ^ 30 + pack_three (map pack_component others)

  unfoldable pub unpack_component : ℕ → W
  unpack_component v =
      component_min
      ⊕ (component_max ⊖ component_min) ⊗ (d.of_int (pos v) ⊗ (unit ⊘ d.decimal 1023 0))

  abbrev sum_sq_from : W → List W → W
  sum_sq_from acc [] = acc
  sum_sq_from acc (v ∷ vs) = sum_sq_from (acc ⊕ v ⊗ v) vs

  abbrev quat_of : List W → Quat W
  quat_of values =
      quat (get_or values 0 nought) (get_or values 1 nought) (get_or values 2 nought)
        (get_or values 3 nought)

  -- The quaternion whose component `largest` is what the other three leave.
  unfoldable pub rebuild : ℕ → List W → Quat W
  unfolding normalize_quaternion
  rebuild largest others =
      let residual = unit ⊖ sum_sq_from nought others in
      let last = d.sqrt (if d.lt nought residual then residual else nought) in
      normalize_quaternion (quat_of (with_at largest last others))

  unfoldable pub decompress_quaternion_smallest_three : ℕ → Quat W
  unfolding unpack_component rebuild
  decompress_quaternion_smallest_three packed =
      let a = packed / 2 ^ 20 % 2 ^ 10 in
      let b = packed / 2 ^ 10 % 2 ^ 10 in
      let c = packed % 2 ^ 10 in
      rebuild (packed / 2 ^ 30 % 4) (map unpack_component (a ∷ b ∷ c ∷ []))

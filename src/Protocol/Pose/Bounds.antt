-- ===== src/Protocol/Pose/Bounds.antt =====
-- Ranges of the quantisers of src/protocol/pose_codec.cpp, for any double at all.
use styly_net_sync_godot.Base.{
  ℕ, zero, suc, ◌+◌, ◌-◌, ◌*◌, ◌/◌, ◌%◌, ◌^◌, ◌≤◌, ◌<◌, ◌≡◌, refl, ap, ◌∙◌, false, not, List, [],
  ◌∷◌, map, get_or, arith, if◌then◌else◌, if_cases, Bool-cases, inl, inr,
}
use styly_net_sync_godot.Base.{length, All}
use styly_net_sync_godot.Base.Int.{ℤ, pos, negsuc}
use styly_net_sync_godot.Wire.Writer.{clamp_i24}
use styly_net_sync_godot.Wire.Decode.RoundTrip.{IsI16}
use styly_net_sync_godot.Protocol.Pose.Double.{Double, IsIeee, Between, minus, nought, ◌⊘◌}
use styly_net_sync_godot.Protocol.Pose.Codec.{
  Quat, round_half_to_even, clamp_rounded, quantize_signed, quantize_signed_int24,
  normalize_quaternion,
}
use styly_net_sync_godot.Protocol.Pose.SmallestThree.{
  larger, largest_index, canonical, largest_and_others, ten_bits, pack_component, pack_three,
  without, compress_quaternion_smallest_three, unpack_component, rebuild,
  decompress_quaternion_smallest_three,
}

Between-minus : (a b : ℕ) → Between (minus a) a b
Between-minus zero b = omega arith
Between-minus (suc a) b = omega arith

Between-IsI16 : (n : ℤ) → Between n (2 ^ 15) (2 ^ 15 - 1) → IsI16 n
Between-IsI16 (pos n) h = omega arith
Between-IsI16 (negsuc n) h = omega arith

clamp_i24-Between : (n : ℤ) → Between n (2 ^ 23) (2 ^ 23 - 1) → clamp_i24 n ≡ n
clamp_i24-Between (pos n) h = ground arith
clamp_i24-Between (negsuc n) h = ground arith

length-without {ℓ} :
    {A : Type ℓ} (i : ℕ) (xs : List A) → i < length xs → length (without i xs) + 1 ≡ length xs
length-without i [] h = omega arith
length-without zero (x ∷ xs) h = omega arith
length-without (suc i) (x ∷ xs) h = omega (arith, length-without i xs)

length-map {ℓ κ} :
    {A : Type ℓ} {B : Type κ} (f : A → B) (xs : List A) → length (map f xs) ≡ length xs
length-map f [] = refl
length-map f (x ∷ xs) = omega (arith, length-map f xs)

-- The fields of a packed word are the index and the three components.
pack_three_lem :
    (i : ℕ) (bits : List ℕ)
    → i < 4
    → length bits ≡ 3
    → All (λ n. n ≤ 1023) bits
    → let packed = i * 2 ^ 30 + pack_three bits in
      (packed < 2 ^ 32)
      × (packed / 2 ^ 30 % 4 ≡ i)
      × ((packed / 2 ^ 20 % 2 ^ 10) ∷ (packed / 2 ^ 10 % 2 ^ 10) ∷ (packed % 2 ^ 10) ∷ [] ≡ bits)
pack_three_lem i [] hi h small = absurd (omega arith)
pack_three_lem i (a ∷ []) hi h small = absurd (omega arith)
pack_three_lem i (a ∷ b ∷ []) hi h small = absurd (omega arith)
pack_three_lem i (a ∷ b ∷ c ∷ []) hi h (ha, (hb, (hc, _))) =
    let p = i * 2 ^ 30 + pack_three (a ∷ b ∷ c ∷ []) in
    let e1 : p / 2 ^ 20 % 2 ^ 10 ≡ a = omega arith in
    let e2 : p / 2 ^ 10 % 2 ^ 10 ≡ b = omega arith in
    let e3 : p % 2 ^ 10 ≡ c = omega arith in (omega arith, omega arith, rw (e1, e2, e3) refl)
pack_three_lem i (a ∷ b ∷ c ∷ e ∷ bits) hi h small = absurd (omega arith)

module _ {W : Type 0} ⦃d : Double W⦄ where
  larger-lt : (abs_values : List W) (i best : ℕ) → i < 4 → best < 4 → larger abs_values i best < 4
  larger-lt abs_values i best hi hb = if_cases (λ n. n < 4) _ hi hb

  largest_index-lt : (abs_values : List W) → largest_index abs_values < 4
  unfolding largest_index
  largest_index-lt abs_values = larger-lt abs_values 3 _ (omega arith) (
      larger-lt abs_values 2 _ (omega arith) (larger-lt abs_values 1 0 (omega arith) (omega arith)))

  length-canonical : (values : List W) (i : ℕ) → length (canonical values i) ≡ length values
  unfolding canonical
  length-canonical values i =
      if_cases (λ (xs : List W). length xs ≡ length values) (d.lt (get_or values i nought) nought)
        (length-map d.neg values) refl

  largest_and_others_lem :
      (q : Quat W) → ((largest_and_others q).0 < 4) × (length (largest_and_others q).1 ≡ 3)
  unfolding largest_and_others
  largest_and_others_lem q =
      let n = normalize_quaternion q in
      let values = n.x ∷ n.y ∷ n.z ∷ n.w ∷ [] in
      let i = largest_index (map d.fabs values) in
      let small = largest_index-lt (map d.fabs values) in
      let four : length (canonical values i) ≡ 4 = length-canonical values i in
      (small, omega (arith, length-without i (canonical values i) (rw four small)))

module _ {W : Type 0} ⦃d : Double W⦄ (ieee : IsIeee W) where
  -- Rounding gives NaN for NaN alone.
  is_nan-round_half_to_even :
      (value : W) → d.is_nan value ≡ false → d.is_nan (round_half_to_even value) ≡ false
  unfolding round_half_to_even
  is_nan-round_half_to_even value h =
      ground (arith, ieee.is_nan-floor value, ieee.is_nan-floor_unit value)

  to_int_clamped :
      (rounded : W) (a b : ℕ)
      → a ≤ 2 ^ 31
      → b < 2 ^ 31
      → d.is_nan rounded ≡ false
      → Between
          (if d.lt rounded (d.of_int (minus a))
            then minus a
            else if d.lt (d.of_int (pos b)) rounded
            then pos b
            else d.to_int rounded)
          a
          b
  to_int_clamped rounded a b ha hb h = elim (Bool-cases (d.lt rounded (d.of_int (minus a)))) [
    | inl below ↦ rw below (Between-minus a b)
    | inr above ↦ rw above (elim (Bool-cases (d.lt (d.of_int (pos b)) rounded)) [
      | inl over ↦ rw over (omega arith)
      | inr under ↦ rw under (
          ieee.to_int-Between rounded a b ha hb
            (ieee.le-not-lt rounded (d.of_int (minus a)) h (ieee.is_nan-of_int (minus a)) above)
            under)
    ])
  ]

  pub clamp_rounded-Between :
      (scaled : W) (a b : ℕ)
      → a ≤ 2 ^ 31
      → b < 2 ^ 31
      → Between (clamp_rounded scaled (minus a) (pos b)) a b
  unfolding clamp_rounded
  clamp_rounded-Between scaled a b ha hb = elim (Bool-cases (d.is_nan scaled)) [
    | inl nan ↦ rw nan (omega arith)
    | inr number ↦ rw number (
        to_int_clamped (round_half_to_even scaled) a b ha hb
          (is_nan-round_half_to_even scaled number))
  ]

  quantize_signed-Between :
      (value scale : W) → Between (quantize_signed value scale) (2 ^ 15) (2 ^ 15 - 1)
  unfolding quantize_signed
  quantize_signed-Between value scale =
      if_cases (λ n. Between n (2 ^ 15) (2 ^ 15 - 1)) (not (d.lt nought scale)) (omega arith)
        (clamp_rounded-Between (value ⊘ scale) (2 ^ 15) (2 ^ 15 - 1) (omega arith) (omega arith))

  quantize_signed_int24-Between :
      (value scale : W) → Between (quantize_signed_int24 value scale) (2 ^ 23) (2 ^ 23 - 1)
  unfolding quantize_signed_int24
  quantize_signed_int24-Between value scale =
      if_cases (λ n. Between n (2 ^ 23) (2 ^ 23 - 1)) (not (d.lt nought scale)) (omega arith)
        (clamp_rounded-Between (value ⊘ scale) (2 ^ 23) (2 ^ 23 - 1) (omega arith) (omega arith))

  -- Whatever the two doubles are, infinite, NaN or a scale that is not positive, the quantised
  -- values lie between -(2 ^ 15) and 2 ^ 15 - 1, and between -(2 ^ 23) and 2 ^ 23 - 1, if the
  -- numbers obey the named laws of IEEE 754.
  pub quantize_in_range :
      (value scale : W)
      → Between (quantize_signed value scale) (2 ^ 15) (2 ^ 15 - 1)
        × Between (quantize_signed_int24 value scale) (2 ^ 23) (2 ^ 23 - 1)
  quantize_in_range value scale =
      (quantize_signed-Between value scale, quantize_signed_int24-Between value scale)

  pub quantize_signed-IsI16 : (value scale : W) → IsI16 (quantize_signed value scale)
  quantize_signed-IsI16 value scale = Between-IsI16 _ (quantize_signed-Between value scale)

  pub clamp_i24-quantize_signed_int24 :
      (value scale : W)
      → clamp_i24 (quantize_signed_int24 value scale) ≡ quantize_signed_int24 value scale
  clamp_i24-quantize_signed_int24 value scale =
      clamp_i24-Between _ (quantize_signed_int24-Between value scale)

  ten_bits-le : (scaled : W) → ten_bits scaled ≤ 1023
  unfolding ten_bits
  ten_bits-le scaled = ground (
    arith,
    ieee.decimal-of_int,
    ieee.le_refl (pos 0),
    ieee.le_refl (pos 1023),
    ieee.le_of_int 1023,
    ieee.lt_irrefl (pos 1023),
    ieee.lt-of_int 1023,
    ieee.to_uint-le scaled 1023,
    ieee.to_uint-le (d.of_int (pos 0)) 1023,
    ieee.to_uint-le (d.of_int (pos 1023)) 1023,
  )

  unpack_lem :
      (packed i : ℕ) (bits : List ℕ)
      → packed / 2 ^ 30 % 4 ≡ i
      → ((packed / 2 ^ 20 % 2 ^ 10) ∷ (packed / 2 ^ 10 % 2 ^ 10) ∷ (packed % 2 ^ 10) ∷ [] ≡ bits)
      → decompress_quaternion_smallest_three packed ≡ rebuild {W = W} i (map unpack_component bits)
  unfolding decompress_quaternion_smallest_three
  unpack_lem packed i bits h e =
      ap
        (λ j. rebuild j (
          map unpack_component
            ((packed / 2 ^ 20 % 2 ^ 10) ∷ (packed / 2 ^ 10 % 2 ^ 10) ∷ (packed % 2 ^ 10) ∷ [])))
        h
      ∙ ap (λ bs. rebuild i (map unpack_component bs)) e

  pack_component-le : (v : W) → pack_component v ≤ 1023
  unfolding pack_component
  pack_component-le v = ten_bits-le _

  map-pack_component-le : (vs : List W) → All (λ n. n ≤ 1023) (map pack_component vs)
  map-pack_component-le [] = tt
  map-pack_component-le (v ∷ vs) = (pack_component-le v, map-pack_component-le vs)

  -- A packed quaternion, degenerate or not, fits 32 bits, and is unpacked from the very index and
  -- the very three components that were packed, if the numbers obey the named laws of IEEE 754.
  pub decompress-compress :
      (q : Quat W)
      → (compress_quaternion_smallest_three q < 2 ^ 32)
        × (decompress_quaternion_smallest_three {W = W} (compress_quaternion_smallest_three q)
            ≡ rebuild
                (largest_and_others q).0
                (map unpack_component (map pack_component (largest_and_others q).1)))
  unfolding compress_quaternion_smallest_three
  decompress-compress q =
      let (i, others) = largest_and_others q in
      let (small, index, bits) =
        pack_three_lem i (map pack_component others) (largest_and_others_lem q).0
          (rw (length-map pack_component others) (largest_and_others_lem q).1)
          (map-pack_component-le others) in
      (small, unpack_lem _ i _ index bits)

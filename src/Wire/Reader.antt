-- ===== src/Wire/Reader.antt =====
-- BinaryReader of src/protocol/binary_reader.hpp and .cpp.
use styly_net_sync_godot.Base.{
  ℕ, ◌+◌, ◌-◌, ◌*◌, ◌%◌, ◌^◌, Bool, true, false, not, ◌||◌, List, [], ltb, leb, if◌then◌else◌,
  length, get_or, take, drop,
}
use styly_net_sync_godot.Base.Int.{ℤ, pos, negsuc}

-- The borrowed bytes, whose number is `size_`, and the two fields that change.
pub record Reader : Type 0 where
  pub bytes : List ℕ
  pub offset : ℕ
  pub ok : Bool

unfoldable pub open_reader : List ℕ → Reader
open_reader bytes = record { bytes = bytes; offset = 0; ok = true }

-- `size_t` is 64 bits wide; the second test of the source is the wrap of the sum.
unfoldable pub require : ℕ → Reader → Bool × Reader
require count r =
    if not r.ok
    then (false, r)
    else let last = (r.offset + count) % 2 ^ 64 in
      if ltb (length r.bytes) last || ltb last r.offset
      then (false, record r { ok = false })
      else (true, r)

-- The shape of every accessor: `require`, the zero value if it fails, or else what stands in the
-- next `count` bytes, which the offset then passes.
unfoldable pub accept {ℓ} : {A : Type ℓ} → ℕ → A → (List ℕ → A) → Bool × Reader → A × Reader
accept count default value (true, r) =
    (value (take count (drop r.offset r.bytes)), record r { offset = r.offset + count })
accept count default value (false, r) = (default, r)

unfoldable pub read_field {ℓ} : {A : Type ℓ} → ℕ → A → (List ℕ → A) → Reader → A × Reader
read_field count default value r = accept count default value (require count r)

-- Little-endian values, each within its type; the bits that `|` joins do not overlap, so it adds.
abbrev pub le16 : List ℕ → ℕ
le16 bs = (get_or bs 0 0 + get_or bs 1 0 * 2 ^ 8) % 2 ^ 16

abbrev pub le24 : List ℕ → ℕ
le24 bs = get_or bs 0 0 + get_or bs 1 0 * 2 ^ 8 + get_or bs 2 0 * 2 ^ 16

abbrev pub le32 : List ℕ → ℕ
le32 bs = le24 bs + get_or bs 3 0 * 2 ^ 24

abbrev pub le64 : List ℕ → ℕ
le64 bs =
    le32 bs
    + get_or bs 4 0 * 2 ^ 32
    + get_or bs 5 0 * 2 ^ 40
    + get_or bs 6 0 * 2 ^ 48
    + get_or bs 7 0 * 2 ^ 56

unfoldable pub read_u8 : Reader → ℕ × Reader
unfolding read_field
read_u8 = read_field 1 0 (λ bs. get_or bs 0 0 % 2 ^ 8)

unfoldable pub read_u16 : Reader → ℕ × Reader
unfolding read_field
read_u16 = read_field 2 0 le16

unfoldable pub read_u32 : Reader → ℕ × Reader
unfolding read_field
read_u32 = read_field 4 0 le32

-- `static_cast<int16_t>` of a 16-bit pattern.
abbrev pub signed16 : ℕ → ℤ
signed16 w = if ltb w (2 ^ 15) then pos w else negsuc (2 ^ 16 - 1 - w)

unfoldable pub read_i16 : Reader → ℤ × Reader
unfolding read_u16
read_i16 r = let (w, r') = read_u16 r in (signed16 w, r')

-- Bit 23 extends the sign to 32 bits.
abbrev pub signed24 : ℕ → ℤ
signed24 w = if ltb w (2 ^ 23) then pos w else negsuc (2 ^ 24 - 1 - w)

unfoldable pub read_i24 : Reader → ℤ × Reader
unfolding read_field
read_i24 = read_field 3 (pos 0) (λ bs. signed24 (le24 bs))

-- The bits of the double; `0.0` is all zeros.
unfoldable pub read_f64 : Reader → ℕ × Reader
unfolding read_field
read_f64 = read_field 8 0 le64

unfoldable pub read_bytes : ℕ → Reader → List ℕ × Reader
unfolding read_field
read_bytes count = read_field count [] (λ bs. bs)

-- A string reads its length first, and then as many bytes; both steps may fail.
unfoldable pub read_string8 : Reader → List ℕ × Reader
unfolding read_u8 read_bytes
read_string8 r = let (size, r') = read_u8 r in read_bytes size r'

unfoldable pub read_string16 : Reader → List ℕ × Reader
unfolding read_u16 read_bytes
read_string16 r = let (size, r') = read_u16 r in read_bytes size r'

abbrev skipped : Bool × Reader → ℕ → Reader
skipped (true, r) count = record r { offset = r.offset + count }
skipped (false, r) count = r

unfoldable pub skip : ℕ → Reader → Reader
unfolding require
skip count r = skipped (require count r) count

unfoldable pub remaining : Reader → ℕ
remaining r =
    if r.ok then if leb r.offset (length r.bytes) then length r.bytes - r.offset else 0 else 0

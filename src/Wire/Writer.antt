-- ===== src/Wire/Writer.antt =====
-- BinaryWriter of src/protocol/binary_writer.hpp and .cpp. A write is the list of the bytes that
-- it appends to the buffer, so a message is its writes one after the other (`concat`).
use styly_net_sync_godot.Base.{
  ℕ, ◌-◌, ◌/◌, ◌%◌, ◌^◌, List, [], ◌∷◌, ◌++◌, ltb, if◌then◌else◌, length, take,
}
use styly_net_sync_godot.Base.Int.{ℤ, pos, negsuc}
use styly_net_sync_godot.Wire.Utf8.{truncate_utf8_bytes}

-- The parameter is a `uint8_t`.
unfoldable pub write_u8 : ℕ → List ℕ
write_u8 value = value % 256 ∷ []

unfoldable pub write_u16 : ℕ → List ℕ
write_u16 value = value % 256 ∷ value / 256 % 256 ∷ []

unfoldable pub write_u32 : ℕ → List ℕ
write_u32 value =
    value % 256 ∷ value / 2 ^ 8 % 256 ∷ value / 2 ^ 16 % 256 ∷ value / 2 ^ 24 % 256 ∷ []

-- `static_cast<uint16_t>` of an integer, its value modulo 2 ^ 16.
abbrev pub to_u16 : ℤ → ℕ
to_u16 (pos n) = n % 2 ^ 16
to_u16 (negsuc n) = 2 ^ 16 - 1 - n % 2 ^ 16

unfoldable pub write_i16 : ℤ → List ℕ
unfolding write_u16
write_i16 value = write_u16 (to_u16 value)

-- kInt24Min is `negsuc (2 ^ 23 - 1)`.
abbrev pub clamp_i24 : ℤ → ℤ
clamp_i24 (pos n) = if ltb (2 ^ 23 - 1) n then pos (2 ^ 23 - 1) else pos n
clamp_i24 (negsuc n) = if ltb (2 ^ 23 - 1) n then negsuc (2 ^ 23 - 1) else negsuc n

-- `static_cast<uint32_t>(value) & 0xFFFFFF`.
abbrev pub to_u24 : ℤ → ℕ
to_u24 (pos n) = n % 2 ^ 24
to_u24 (negsuc n) = 2 ^ 24 - 1 - n % 2 ^ 24

unfoldable pub write_i24 : ℤ → List ℕ
write_i24 value =
    let unsigned_value = to_u24 (clamp_i24 value) in
    unsigned_value % 256 ∷ unsigned_value / 2 ^ 8 % 256 ∷ unsigned_value / 2 ^ 16 % 256 ∷ []

-- A `double` is its bit pattern, a number below 2 ^ 64.
unfoldable pub write_f64 : ℕ → List ℕ
write_f64 bits =
    bits % 256
    ∷ bits / 2 ^ 8 % 256
    ∷ bits / 2 ^ 16 % 256
    ∷ bits / 2 ^ 24 % 256
    ∷ bits / 2 ^ 32 % 256
    ∷ bits / 2 ^ 40 % 256
    ∷ bits / 2 ^ 48 % 256
    ∷ bits / 2 ^ 56 % 256
    ∷ []

unfoldable pub write_string8 : List ℕ → List ℕ
write_string8 value =
    let truncated = truncate_utf8_bytes value 255 in length truncated % 256 ∷ truncated

unfoldable pub write_string16 : List ℕ → List ℕ
unfolding write_u16
write_string16 value =
    let size =
      if ltb 65535 (length value) then length (truncate_utf8_bytes value 65535) else length value in
    write_u16 (size % 2 ^ 16) ++ take size value

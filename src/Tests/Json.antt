-- ===== src/Tests/Json.antt =====
-- A run of the string encoder and parser of src/core/json_util.cpp.
use styly_net_sync_godot.Base.{ℕ, ◌≡◌, some, List, [], ◌∷◌}
use styly_net_sync_godot.Core.Json.{encode_json_string_array}
use styly_net_sync_godot.Core.Json.Parser.{decode_json_string_array}
use styly_net_sync_godot.Core.Json.RoundTrip.{decode-encode_json_string_array}

-- A quote, a backslash, a line feed, a control byte and two bytes of UTF-8.
abbrev awkward : List ℕ
awkward = b'"' ∷ 92 ∷ 10 ∷ 1 ∷ 0xC3 ∷ 0xA9 ∷ []

abbrev as_written : List ℕ → List ℕ
as_written text = text

decode-encode_json_string_array_example :
    decode_json_string_array as_written (encode_json_string_array (awkward ∷ [] ∷ []))
    ≡ some (awkward ∷ [] ∷ [])
decode-encode_json_string_array_example =
    decode-encode_json_string_array as_written (awkward ∷ [] ∷ [])

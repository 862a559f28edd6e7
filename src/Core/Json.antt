-- ===== src/Core/Json.antt =====
-- The JSON encoders of src/core/json_util.cpp that an RPC uses. A character is its byte.
pub mod Strings
pub mod Parser
pub mod RoundTrip
use styly_net_sync_godot.Base.{ℕ, ◌+◌, ◌/◌, ◌%◌, List, [], ◌∷◌, ◌++◌, ltb, ◌==◌, if◌then◌else◌}

-- A digit of `%04x`.
abbrev pub hex_digit : ℕ → ℕ
hex_digit d = if ltb d 10 then b'0' + d else b'a' + d % 10

-- The switch of encode_json_string on one byte.
unfoldable pub escape : ℕ → List ℕ
escape c =
    if c == b'"'
    then 92 ∷ b'"' ∷ []
    else if c == 92
    then 92 ∷ 92 ∷ []
    else if c == 8
    then 92 ∷ b'b' ∷ []
    else if c == 12
    then 92 ∷ b'f' ∷ []
    else if c == 10
    then 92 ∷ b'n' ∷ []
    else if c == 13
    then 92 ∷ b'r' ∷ []
    else if c == 9
    then 92 ∷ b't' ∷ []
    else if ltb c 0x20
    then 92 ∷ b'u' ∷ b'0' ∷ b'0' ∷ hex_digit (c / 16) ∷ hex_digit (c % 16) ∷ []
    else c ∷ []

unfoldable pub escape_all : List ℕ → List ℕ
unfolding escape
escape_all [] = []
escape_all (c ∷ cs) = escape c ++ escape_all cs

unfoldable pub encode_json_string : List ℕ → List ℕ
unfolding escape_all
encode_json_string value = b'"' ∷ (escape_all value ++ (b'"' ∷ []))

-- The elements after the first, each behind a comma.
unfoldable pub encode_more : List (List ℕ) → List ℕ
unfolding encode_json_string
encode_more [] = []
encode_more (v ∷ vs) = b',' ∷ (encode_json_string v ++ encode_more vs)

unfoldable pub encode_elements : List (List ℕ) → List ℕ
unfolding encode_json_string encode_more
encode_elements [] = []
encode_elements (v ∷ vs) = encode_json_string v ++ encode_more vs

unfoldable pub encode_json_string_array : List (List ℕ) → List ℕ
unfolding encode_elements
encode_json_string_array values = b'[' ∷ (encode_elements values ++ (b']' ∷ []))

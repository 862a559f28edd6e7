-- ===== src/Core/Json/Strings.antt =====
-- The string literals of JsonParser in src/core/json_util.cpp. The parser's text and index are what
-- is left of the text; a function that fails is `none`. The message of a failure is not modelled.
use styly_net_sync_godot.Base.{
  ℕ, zero, suc, ◌+◌, ◌-◌, ◌*◌, ◌/◌, ◌%◌, ◌≤◌, ◌<◌, ◌≡◌, refl, sym, ap, ◌∙◌, subst, arith, Bool,
  false, not, ◌&&◌, Option, none, some, List, [], ◌∷◌, ◌++◌, append_assoc, ltb, leb, ◌==◌, ==_iff,
  if◌then◌else◌, length, length-append, Bool-cases, inl, inr, ltb→lt, lt→ltb,
}
use styly_net_sync_godot.Core.Json.{hex_digit, escape, escape_all, encode_json_string}

-- `|` joins a mark with bits below it, so it is `+`.
unfoldable pub append_utf8 : ℕ → List ℕ
append_utf8 p =
    if ltb p 0x80
    then p ∷ []
    else if ltb p 0x800
    then (0xC0 + p / 64) ∷ (0x80 + p % 64) ∷ []
    else if ltb p 0x10000
    then (0xE0 + p / 4096) ∷ (0x80 + p / 64 % 64) ∷ (0x80 + p % 64) ∷ []
    else (0xF0 + p / 262144) ∷ (0x80 + p / 4096 % 64) ∷ (0x80 + p / 64 % 64) ∷ (0x80 + p % 64) ∷ []

abbrev pub within : ℕ → ℕ → ℕ → Bool
within low high c = leb low c && leb c high

unfoldable pub hex_value : ℕ → Option ℕ
hex_value c =
    if within b'0' b'9' c
    then some (c - b'0')
    else if within b'a' b'f' c
    then some (c - b'a' + 10)
    else if within b'A' b'F' c
    then some (c - b'A' + 10)
    else none

abbrev pub digits4 : Option ℕ → Option ℕ → Option ℕ → Option ℕ → List ℕ → Option (ℕ × List ℕ)
digits4 (some a) (some b) (some c) (some d) rest = some (((a * 16 + b) * 16 + c) * 16 + d, rest)
digits4 none b c d rest = none
digits4 (some a) none c d rest = none
digits4 (some a) (some b) none d rest = none
digits4 (some a) (some b) (some c) none rest = none

unfoldable pub parse_hex4 : List ℕ → Option (ℕ × List ℕ)
parse_hex4 (a ∷ b ∷ c ∷ d ∷ rest) =
    digits4 (hex_value a) (hex_value b) (hex_value c) (hex_value d) rest
parse_hex4 (a ∷ b ∷ c ∷ []) = none
parse_hex4 (a ∷ b ∷ []) = none
parse_hex4 (a ∷ []) = none
parse_hex4 [] = none

-- The letters of the one-letter escapes.
unfoldable pub simple_escape : ℕ → Option ℕ
simple_escape e =
    if e == b'"'
    then some b'"'
    else if e == 92
    then some 92
    else if e == b'/'
    then some b'/'
    else if e == b'b'
    then some 8
    else if e == b'f'
    then some 12
    else if e == b'n'
    then some 10
    else if e == b'r'
    then some 13
    else if e == b't'
    then some 9
    else none

-- A high surrogate alone, or with the low surrogate that may follow.
abbrev pub with_low : ℕ → List ℕ → Option (ℕ × List ℕ) → List ℕ × List ℕ
with_low p back none = (append_utf8 p, back)
with_low p back (some (low, rest)) =
    if within 0xDC00 0xDFFF low
    then (append_utf8 (0x10000 + (p - 0xD800) * 1024 + (low - 0xDC00)), rest)
    else (append_utf8 p, back)

unfoldable pub pair_up : ℕ → List ℕ → List ℕ × List ℕ
pair_up p [] = (append_utf8 p, [])
pair_up p (a ∷ []) = (append_utf8 p, a ∷ [])
pair_up p (a ∷ b ∷ rest) =
    if a == 92 && b == b'u'
    then with_low p (a ∷ b ∷ rest) (parse_hex4 rest)
    else (append_utf8 p, a ∷ b ∷ rest)

abbrev pub unicode_escape : Option (ℕ × List ℕ) → Option (List ℕ × List ℕ)
unicode_escape none = none
unicode_escape (some (p, rest)) =
    some (if within 0xD800 0xDBFF p then pair_up p rest else (append_utf8 p, rest))

abbrev pub one_byte : Option ℕ → List ℕ → Option (List ℕ × List ℕ)
one_byte none rest = none
one_byte (some c) rest = some (c ∷ [], rest)

-- What stands behind a backslash: the bytes that it means, and the text behind it.
unfoldable pub unescape : List ℕ → Option (List ℕ × List ℕ)
unescape [] = none
unescape (e ∷ rest) =
    if e == b'u' then unicode_escape (parse_hex4 rest) else one_byte (simple_escape e) rest

abbrev pub push_bytes : List ℕ → Option (List ℕ × List ℕ) → Option (List ℕ × List ℕ)
push_bytes bytes none = none
push_bytes bytes (some (value, rest)) = some (bytes ++ value, rest)

-- The loop of parse_string, on fuel: each round takes at least one byte of the text.
unfoldable pub parse_chars : ℕ → List ℕ → Option (List ℕ × List ℕ)
parse_chars zero text = none
parse_chars (suc n) [] = none
parse_chars (suc n) (c ∷ text) =
    let plain = push_bytes (c ∷ []) (parse_chars n text) in
    let escaped : Option (List ℕ × List ℕ) = elim (unescape text) [
      | none ↦ none
      | some (bytes, rest) ↦ push_bytes bytes (parse_chars n rest)
    ] in
    if c == b'"' then some ([], text) else if not (c == 92) then plain else escaped

unfoldable pub parse_string : List ℕ → Option (List ℕ × List ℕ)
parse_string [] = none
parse_string (c ∷ text) = if c == b'"' then parse_chars (suc (length text)) text else none

-- The escape of a byte, read back in one round.
abbrev Steps : ℕ → List ℕ → ℕ → Type 0
Steps n rest c = parse_chars (suc n) (escape c ++ rest) ≡ push_bytes (c ∷ []) (parse_chars n rest)

hex_value-digit : (d : ℕ) → d < 16 → hex_value (hex_digit d) ≡ some d
unfolding hex_value
hex_value-digit d h = ground arith

hex_zero : hex_value b'0' ≡ some 0
unfolding hex_value
hex_zero = refl

hex4_control :
    (c : ℕ) (rest : List ℕ)
    → c < 32
    → parse_hex4 (b'0' ∷ b'0' ∷ hex_digit (c / 16) ∷ hex_digit (c % 16) ∷ rest) ≡ some (c, rest)
unfolding parse_hex4
hex4_control c rest h =
    rw (hex_zero, hex_value-digit (c / 16) (omega arith), hex_value-digit (c % 16) (omega arith))
      (ap (λ v. some (v, rest)) (omega arith))

control_step :
    (n c : ℕ) (rest : List ℕ)
    → c < 32
    → parse_chars (suc n) (92 ∷ b'u' ∷ b'0' ∷ b'0' ∷ hex_digit (c / 16) ∷ hex_digit (c % 16) ∷ rest)
      ≡ push_bytes (c ∷ []) (parse_chars n rest)
unfolding parse_chars unescape append_utf8
control_step n c rest h = rw (hex4_control c rest h, no_surrogate, lt→ltb c 0x80 (omega arith))
  where
    no_surrogate : within 0xD800 0xDBFF c ≡ false
    no_surrogate = ground arith

plain_step :
    (n c : ℕ) (rest : List ℕ)
    → (c == b'"') ≡ false
    → (c == 92) ≡ false
    → parse_chars (suc n) (c ∷ rest) ≡ push_bytes (c ∷ []) (parse_chars n rest)
unfolding parse_chars
plain_step n c rest a b = rw (a, b)

escape_step : (n c : ℕ) (rest : List ℕ) → Steps n rest c
unfolding parse_chars unescape simple_escape escape
escape_step n c rest = elim (Bool-cases (c == b'"')) [
  | inl e ↦ subst (Steps n rest) (sym ((==_iff c b'"').0 e)) refl
  | inr a ↦ elim (Bool-cases (c == 92)) [
    | inl e ↦ subst (Steps n rest) (sym ((==_iff c 92).0 e)) refl
    | inr b ↦ elim (Bool-cases (c == 8)) [
      | inl e ↦ subst (Steps n rest) (sym ((==_iff c 8).0 e)) refl
      | inr d ↦ elim (Bool-cases (c == 12)) [
        | inl e ↦ subst (Steps n rest) (sym ((==_iff c 12).0 e)) refl
        | inr f ↦ elim (Bool-cases (c == 10)) [
          | inl e ↦ subst (Steps n rest) (sym ((==_iff c 10).0 e)) refl
          | inr g ↦ elim (Bool-cases (c == 13)) [
            | inl e ↦ subst (Steps n rest) (sym ((==_iff c 13).0 e)) refl
            | inr i ↦ elim (Bool-cases (c == 9)) [
              | inl e ↦ subst (Steps n rest) (sym ((==_iff c 9).0 e)) refl
              | inr j ↦ elim (Bool-cases (ltb c 0x20)) [
                | inl low ↦
                    rw (a, b, d, f, g, i, j, low) (control_step n c rest (ltb→lt c 0x20 low))
                | inr high ↦ rw (a, b, d, f, g, i, j, high) (plain_step n c rest a b)
              ]
            ]
          ]
        ]
      ]
    ]
  ]
]

closing : (n : ℕ) (rest : List ℕ) → parse_chars (suc n) (b'"' ∷ rest) ≡ some ([], rest)
unfolding parse_chars
closing n rest = refl

parse_chars-escape_all :
    (n : ℕ) (value rest : List ℕ)
    → length value < n
    → parse_chars n (escape_all value ++ (b'"' ∷ rest)) ≡ some (value, rest)
unfolding escape_all
parse_chars-escape_all zero value rest h = absurd (omega arith)
parse_chars-escape_all (suc n) [] rest h = closing n rest
parse_chars-escape_all (suc n) (c ∷ value) rest h =
    rw (append_assoc (escape c) (escape_all value) (b'"' ∷ rest)) (
      escape_step n c (escape_all value ++ (b'"' ∷ rest))
      ∙ rw (parse_chars-escape_all n value rest (omega arith)))

length-escape : (c : ℕ) → 1 ≤ length (escape c)
unfolding escape
length-escape c = ground arith

length-escape_all : (value : List ℕ) → length value ≤ length (escape_all value)
unfolding escape_all
length-escape_all [] = omega arith
length-escape_all (c ∷ value) =
    omega
      (arith, length-append (escape c) (escape_all value), length-escape c, length-escape_all value)

-- A string that `encode_json_string` wrote is parsed back as the same bytes, whatever follows it,
-- and exactly what follows it is left, whatever bytes the string has.
pub parse_string-encode_json_string :
    (value rest : List ℕ) → parse_string (encode_json_string value ++ rest) ≡ some (value, rest)
unfolding parse_string encode_json_string
parse_string-encode_json_string value rest = rw (append_assoc (escape_all value) (b'"' ∷ []) rest) (
    parse_chars-escape_all _ value rest
      (omega (arith, length-append (escape_all value) (b'"' ∷ rest), length-escape_all value)))

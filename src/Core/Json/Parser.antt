-- ===== src/Core/Json/Parser.antt =====
-- JsonParser and JsonValue of src/core/json_util.*, as far as decode_json_string_array uses them. A
-- number is kept as its text: what `strtod` and `snprintf` make of it is the parameter
-- `format_number`. The parser is on fuel, of which every call of a value or an element takes one.
use styly_net_sync_godot.Base.{
  ℕ, zero, suc, ◌-◌, Bool, true, false, ◌||◌, Option, none, some, List, [], ◌∷◌, ◌++◌, ltb, ◌==◌,
  if◌then◌else◌, length, take,
}
use styly_net_sync_godot.Base.Keys.{bytes_eq, bytes_lt}
use styly_net_sync_godot.Core.Json.{encode_json_string}
use styly_net_sync_godot.Core.Json.Strings.{within, parse_string}

abbrev pub max_depth : ℕ
max_depth = 64

mutual
  pub data Json : Type 0 where
    json_null : Json
    json_bool : Bool → Json
    json_number : List ℕ → Json
    json_string : List ℕ → Json
    json_array : Items → Json
    json_object : Members → Json

  pub data Items : Type 0 where
    no_items : Items
    item : Json → Items → Items

  pub data Members : Type 0 where
    no_members : Members
    member : List ℕ → Json → Members → Members

-- `object_[key] = value` on a `std::map`.
unfoldable pub set_member : List ℕ → Json → Members → Members
set_member key value no_members = member key value no_members
set_member key value (member k v ms) =
    if bytes_eq k key
    then member key value ms
    else if bytes_lt key k
    then member key value (member k v ms)
    else member k v (set_member key value ms)

abbrev pub is_whitespace : ℕ → Bool
is_whitespace c = c == b' ' || (c == 9 || (c == 10 || c == 13))

unfoldable pub skip_whitespace : List ℕ → List ℕ
skip_whitespace [] = []
skip_whitespace (c ∷ text) = if is_whitespace c then skip_whitespace text else c ∷ text

-- What stands behind a word that the text begins with.
unfoldable pub literal : List ℕ → List ℕ → Option (List ℕ)
literal [] text = some text
literal (w ∷ word) [] = none
literal (w ∷ word) (c ∷ text) = if c == w then literal word text else none

abbrev pub is_sign : ℕ → Bool
is_sign c = c == b'-' || c == b'+'

unfoldable pub skip_sign : List ℕ → List ℕ
skip_sign [] = []
skip_sign (c ∷ text) = if is_sign c then text else c ∷ text

-- The loop over digits: whether there was one, and what is left.
unfoldable pub skip_digits : Bool → List ℕ → Bool × List ℕ
skip_digits has_digits [] = (has_digits, [])
skip_digits has_digits (c ∷ text) =
    if within b'0' b'9' c then skip_digits true text else (has_digits, c ∷ text)

unfoldable pub skip_fraction : Bool × List ℕ → Bool × List ℕ
skip_fraction (has_digits, []) = (has_digits, [])
skip_fraction (has_digits, c ∷ text) =
    if c == b'.' then skip_digits has_digits text else (has_digits, c ∷ text)

unfoldable pub skip_exponent : Bool × List ℕ → Bool × List ℕ
skip_exponent (false, text) = (false, text)
skip_exponent (true, []) = (true, [])
skip_exponent (true, c ∷ text) =
    if c == b'e' || c == b'E' then skip_digits true (skip_sign text) else (true, c ∷ text)

abbrev pub number_of : List ℕ → Bool × List ℕ → Option (Json × List ℕ)
number_of text (false, rest) = none
number_of text (true, rest) = some (json_number (take (length text - length rest) text), rest)

unfoldable pub parse_number : List ℕ → Option (Json × List ℕ)
parse_number text =
    number_of text (skip_exponent (skip_fraction (skip_digits false (skip_sign text))))

-- The cases of the switch of parse_value.
pub data Head : Type 0 where
  opens_object opens_array quotes true_word false_word null_word digit : Head

unfoldable pub head_of : ℕ → Head
head_of c =
    if c == b'{'
    then opens_object
    else if c == b'['
    then opens_array
    else if c == b'"'
    then quotes
    else if c == b't'
    then true_word
    else if c == b'f'
    then false_word
    else if c == b'n'
    then null_word
    else digit

abbrev pub with_value : Json → Option (List ℕ) → Option (Json × List ℕ)
with_value value none = none
with_value value (some rest) = some (value, rest)

abbrev pub string_value : Option (List ℕ × List ℕ) → Option (Json × List ℕ)
string_value none = none
string_value (some (value, rest)) = some (json_string value, rest)

-- What stands behind an element: a comma, the closing bracket, or neither.
pub data After : Type 0 where
  comma : List ℕ → After
  close : List ℕ → After
  neither : After

unfoldable pub after_element : ℕ → List ℕ → After
after_element bracket [] = neither
after_element bracket (c ∷ rest) =
    if c == b',' then comma rest else if c == bracket then close rest else neither

-- The text after a `:`.
unfoldable pub after_colon : List ℕ → Option (List ℕ)
after_colon [] = none
after_colon (c ∷ rest) = if c == b':' then some rest else none

abbrev pub array_of : Option (Items × List ℕ) → Option (Json × List ℕ)
array_of none = none
array_of (some (items, rest)) = some (json_array items, rest)

abbrev pub object_of : Option (Members × List ℕ) → Option (Json × List ℕ)
object_of none = none
object_of (some (members, rest)) = some (json_object members, rest)

abbrev pub push_item : Json → Option (Items × List ℕ) → Option (Items × List ℕ)
push_item value none = none
push_item value (some (items, rest)) = some (item value items, rest)

-- The text behind a bracket that closes at once.
unfoldable pub closes_at_once : ℕ → List ℕ → Option (List ℕ)
closes_at_once bracket [] = none
closes_at_once bracket (c ∷ rest) = if c == bracket then some rest else none

unfoldable mutual
  pub parse_value : ℕ → ℕ → List ℕ → Option (Json × List ℕ)
  parse_value zero depth text = none
  parse_value (suc n) depth text =
      if ltb max_depth depth then none else elim (skip_whitespace text) [
        | [] ↦ none
        | c ∷ cs ↦ elim (head_of c) [
          | opens_object ↦ elim (closes_at_once b'}' (skip_whitespace cs)) [
            | some rest ↦ some (json_object no_members, rest)
            | none ↦ object_of (parse_members n depth no_members (skip_whitespace cs))
          ]
          | opens_array ↦ elim (closes_at_once b']' (skip_whitespace cs)) [
            | some rest ↦ some (json_array no_items, rest)
            | none ↦ array_of (parse_items n depth (skip_whitespace cs))
          ]
          | quotes ↦ string_value (parse_string (c ∷ cs))
          | true_word ↦
              with_value (json_bool true) (literal (b't' ∷ b'r' ∷ b'u' ∷ b'e' ∷ []) (c ∷ cs))
          | false_word ↦
              with_value (json_bool false)
                (literal (b'f' ∷ b'a' ∷ b'l' ∷ b's' ∷ b'e' ∷ []) (c ∷ cs))
          | null_word ↦ with_value json_null (literal (b'n' ∷ b'u' ∷ b'l' ∷ b'l' ∷ []) (c ∷ cs))
          | digit ↦ parse_number (c ∷ cs)
        ]
      ]

  pub parse_items : ℕ → ℕ → List ℕ → Option (Items × List ℕ)
  parse_items zero depth text = none
  parse_items (suc n) depth text = elim (parse_value n (suc depth) text) [
    | none ↦ none
    | some (value, rest) ↦ elim (after_element b']' (skip_whitespace rest)) [
      | comma rest' ↦ push_item value (parse_items n depth rest')
      | close rest' ↦ some (item value no_items, rest')
      | neither ↦ none
    ]
  ]

  pub parse_members : ℕ → ℕ → Members → List ℕ → Option (Members × List ℕ)
  parse_members zero depth found text = none
  parse_members (suc n) depth found text = elim (parse_string (skip_whitespace text)) [
    | none ↦ none
    | some (key, rest) ↦ elim (after_colon (skip_whitespace rest)) [
      | none ↦ none
      | some rest' ↦ elim (parse_value n (suc depth) rest') [
        | none ↦ none
        | some (value, back) ↦ elim (after_element b'}' (skip_whitespace back)) [
          | comma back' ↦ parse_members n depth (set_member key value found) back'
          | close back' ↦ some (set_member key value found, back')
          | neither ↦ none
        ]
      ]
    ]
  ]

abbrev pub whole : Option (Json × List ℕ) → Option Json
whole none = none
whole (some (value, [])) = some value
whole (some (value, c ∷ rest)) = none

abbrev pub trimmed : Option (Json × List ℕ) → Option (Json × List ℕ)
trimmed none = none
trimmed (some (value, rest)) = some (value, skip_whitespace rest)

-- Fuel for a text: a value and an element that begin at the same byte take one each.
unfoldable pub rounds : List ℕ → ℕ
rounds [] = 1
rounds (c ∷ text) = suc (suc (rounds text))

-- JsonParser::parse
unfoldable pub parse : List ℕ → Option Json
parse text = whole (trimmed (parse_value (rounds text) 0 (skip_whitespace text)))

module _ (format_number : List ℕ → List ℕ) where
  unfoldable mutual
    pub dump : Json → List ℕ
    dump json_null = b'n' ∷ b'u' ∷ b'l' ∷ b'l' ∷ []
    dump (json_bool true) = b't' ∷ b'r' ∷ b'u' ∷ b'e' ∷ []
    dump (json_bool false) = b'f' ∷ b'a' ∷ b'l' ∷ b's' ∷ b'e' ∷ []
    dump (json_number text) = format_number text
    dump (json_string value) = encode_json_string value
    dump (json_array items) = b'[' ∷ (dump_items false items ++ (b']' ∷ []))
    dump (json_object members) = b'{' ∷ (dump_members false members ++ (b'}' ∷ []))

    -- The elements, with a comma before each that is not the first.
    pub dump_items : Bool → Items → List ℕ
    dump_items behind no_items = []
    dump_items true (item value items) = b',' ∷ (dump value ++ dump_items true items)
    dump_items false (item value items) = dump value ++ dump_items true items

    pub dump_members : Bool → Members → List ℕ
    dump_members behind no_members = []
    dump_members true (member key value members) =
        b',' ∷ (encode_json_string key ++ (b':' ∷ (dump value ++ dump_members true members)))
    dump_members false (member key value members) =
        encode_json_string key ++ (b':' ∷ (dump value ++ dump_members true members))

  unfoldable pub element_text : Json → List ℕ
  element_text json_null = []
  element_text (json_string value) = value
  element_text (json_bool b) = dump (json_bool b)
  element_text (json_number text) = dump (json_number text)
  element_text (json_array items) = dump (json_array items)
  element_text (json_object found) = dump (json_object found)

  unfoldable pub element_texts : Items → List (List ℕ)
  element_texts no_items = []
  element_texts (item value items) = element_text value ∷ element_texts items

  abbrev pub texts_of : Option Json → Option (List (List ℕ))
  texts_of none = none
  texts_of (some (json_array items)) = some (element_texts items)
  texts_of (some json_null) = none
  texts_of (some (json_bool b)) = none
  texts_of (some (json_number text)) = none
  texts_of (some (json_string value)) = none
  texts_of (some (json_object found)) = none

  unfoldable pub decode_json_string_array : List ℕ → Option (List (List ℕ))
  decode_json_string_array json = texts_of (parse json)

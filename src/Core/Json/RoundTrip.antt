-- ===== src/Core/Json/RoundTrip.antt =====
-- An array of strings that src/core/json_util.cpp encodes and decodes.
use styly_net_sync_godot.Base.{
  ℕ, zero, suc, ◌≤◌, ◌<◌, ◌≡◌, refl, ap, arith, some, List, [], ◌∷◌, ◌++◌, append_assoc, length,
  length-append, le→ltb,
}
use styly_net_sync_godot.Core.Json.{
  encode_json_string, encode_more, encode_elements, encode_json_string_array,
}
use styly_net_sync_godot.Core.Json.Strings.{parse_string-encode_json_string}
use styly_net_sync_godot.Core.Json.Parser.{
  rounds, json_string, json_array, Items, no_items, item, max_depth, skip_whitespace, head_of,
  after_element, closes_at_once, parse_value, parse_items, whole, trimmed, parse, element_text,
  element_texts, decode_json_string_array,
}

abbrev items_of : List (List ℕ) → Items
items_of [] = no_items
items_of (v ∷ vs) = item (json_string v) (items_of vs)

parse_value-encode_json_string :
    (n depth : ℕ) (value rest : List ℕ)
    → depth ≤ max_depth
    → parse_value (suc n) depth (encode_json_string value ++ rest) ≡ some (json_string value, rest)
unfolding parse_value skip_whitespace head_of encode_json_string
parse_value-encode_json_string n depth value rest shallow =
    rw (le→ltb max_depth depth shallow, parse_string-encode_json_string value rest)

parse_items-encode :
    (n : ℕ) (v : List ℕ) (vs : List (List ℕ)) (rest : List ℕ)
    → length vs < n
    → parse_items (suc n) 0 (encode_json_string v ++ (encode_more vs ++ (b']' ∷ rest)))
      ≡ some (items_of (v ∷ vs), rest)
unfolding parse_items encode_more skip_whitespace after_element head_of
parse_items-encode zero v vs rest h = absurd (omega arith)
parse_items-encode (suc n) v [] rest h =
    rw (parse_value-encode_json_string n 1 v (b']' ∷ rest) (omega arith), parse_items)
parse_items-encode (suc n) v (w ∷ vs) rest h = rw (
  append_assoc (encode_json_string w) (encode_more vs) (b']' ∷ rest),
  parse_value-encode_json_string n 1 v
      (b',' ∷ (encode_json_string w ++ (encode_more vs ++ (b']' ∷ rest)))) (omega arith),
  parse_items,
  parse_items-encode n w vs rest (omega arith),
)

length-encode_more : (vs : List (List ℕ)) → length vs ≤ length (encode_more vs)
unfolding encode_more
length-encode_more [] = omega arith
length-encode_more (v ∷ vs) =
    omega (arith, length-append (encode_json_string v) (encode_more vs), length-encode_more vs)

array_value :
    (n : ℕ) (v : List ℕ) (vs : List (List ℕ))
    → length vs < n
    → parse_value (suc (suc n)) 0 (b'[' ∷ ((encode_json_string v ++ encode_more vs) ++ (b']' ∷ [])))
      ≡ some (json_array (items_of (v ∷ vs)), [])
unfolding parse_value skip_whitespace head_of closes_at_once encode_json_string
array_value n v vs h = rw (
  append_assoc (encode_json_string v) (encode_more vs) (b']' ∷ []),
  parse_items-encode n v vs [] h,
)

length-rounds : (text : List ℕ) → length text ≤ rounds text
unfolding rounds
length-rounds [] = omega arith
length-rounds (c ∷ text) = omega (arith, length-rounds text)

room :
    (v : List ℕ) (vs : List (List ℕ))
    → length vs < rounds ((encode_json_string v ++ encode_more vs) ++ (b']' ∷ []))
room v vs = omega (
  arith,
  length-rounds ((encode_json_string v ++ encode_more vs) ++ (b']' ∷ [])),
  length-append (encode_json_string v ++ encode_more vs) (b']' ∷ []),
  length-append (encode_json_string v) (encode_more vs),
  length-encode_more vs,
)

parse-encode :
    (values : List (List ℕ))
    → parse (encode_json_string_array values) ≡ some (json_array (items_of values))
unfolding rounds parse encode_json_string_array encode_elements skip_whitespace parse_value head_of
    closes_at_once
parse-encode [] = refl
parse-encode (v ∷ vs) = ap (λ r. whole (trimmed r)) (array_value _ v vs (room v vs))

module _ (format_number : List ℕ → List ℕ) where
  element_texts-items_of :
      (values : List (List ℕ)) → element_texts format_number (items_of values) ≡ values
  unfolding element_texts element_text
  element_texts-items_of [] = refl
  element_texts-items_of (v ∷ vs) = rw (element_texts-items_of vs)

  -- Decoding an array of strings that was encoded gives the strings back, whatever bytes they have
  -- and whatever the conversion of numbers does.
  pub decode-encode_json_string_array :
      (values : List (List ℕ))
      → decode_json_string_array format_number (encode_json_string_array values) ≡ some values
  unfolding decode_json_string_array
  decode-encode_json_string_array values =
      rw (parse-encode values) (ap some (element_texts-items_of values))

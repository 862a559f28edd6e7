-- ===== src/Protocol/Variables/RoundTrip.antt =====
-- What becomes of a network variable on its way through src/protocol/protocol_v8.cpp.
use styly_net_sync_godot.Base.{
  ℕ, ◌^◌, ◌≤◌, ◌<◌, ◌≡◌, ◌≢◌, refl, ap, ◌∙◌, Option, none, some, List, [], ◌∷◌, ◌++◌, arith, length,
}
use styly_net_sync_godot.Wire.Utf8.{truncate_utf8_bytes, code_point_length}
use styly_net_sync_godot.Wire.Utf8.Truncation.{
  truncate_utf8_bytes_short, length-truncate_utf8_bytes, truncate_utf8_code_points_short,
}
use styly_net_sync_godot.Wire.Writer.{write_string8, write_string16}
use styly_net_sync_godot.Wire.Reader.{read_string8, read_string16}
use styly_net_sync_godot.Wire.Decode.{field}
use styly_net_sync_godot.Wire.Decode.RoundTrip.{
  Reads, Reads-subst, Reads-bind, Reads-then, Reads-pure, Reads-check_ok, Reads-u16, Reads-string8,
  Reads-string8_truncated, Reads-string16_truncated, Reads-decode,
}
use styly_net_sync_godot.Wire.Decode.Stable.{Stable, Ends, decode-cut, stable_rules}
use styly_net_sync_godot.Protocol.Begin.{
  msg_global_var_set, msg_client_var_set, msg_client_var_clear, Reads-begin, Stable-begin,
}
use styly_net_sync_godot.Protocol.Variables.{
  max_variable_name_chars, max_variable_value_chars, clamp_variable_name, clamp_variable_value,
  GlobalVarSetMessage, serialize_global_var_set, global_var_set_fields, deserialize_global_var_set,
  ClientVarSetMessage, serialize_client_var_set, client_var_set_fields, deserialize_client_var_set,
  ClientVarClearMessage, serialize_client_var_clear, client_var_clear_fields,
  deserialize_client_var_clear,
}

-- A name and a value after the clamp to code points and the cut to the length field.
pub wire_name : List ℕ → List ℕ
wire_name name = truncate_utf8_bytes (clamp_variable_name name) 255

pub wire_value : List ℕ → List ℕ
wire_value value = truncate_utf8_bytes (clamp_variable_value value) 65535

pub wire_name_short :
    (name : List ℕ)
    → code_point_length name ≤ max_variable_name_chars
    → length name ≤ 255
    → wire_name name ≡ name
unfolding wire_name clamp_variable_name
wire_name_short name points bytes =
    ap (λ n. truncate_utf8_bytes n 255)
      (truncate_utf8_code_points_short name max_variable_name_chars points)
    ∙ truncate_utf8_bytes_short name 255 bytes

pub wire_value_short :
    (value : List ℕ)
    → code_point_length value ≤ max_variable_value_chars
    → length value ≤ 65535
    → wire_value value ≡ value
unfolding wire_value clamp_variable_value
wire_value_short value points bytes =
    ap (λ v. truncate_utf8_bytes v 65535)
      (truncate_utf8_code_points_short value max_variable_value_chars points)
    ∙ truncate_utf8_bytes_short value 65535 bytes

pub length-wire_name : (name : List ℕ) → length (wire_name name) ≤ 255
unfolding wire_name
length-wire_name name = length-truncate_utf8_bytes (clamp_variable_name name) 255

pub Reads-name :
    (name : List ℕ)
    → Reads (field read_string8) (write_string8 (clamp_variable_name name)) (wire_name name)
unfolding wire_name
Reads-name name = Reads-string8_truncated (clamp_variable_name name)

pub Reads-value :
    (value : List ℕ)
    → Reads (field read_string16) (write_string16 (clamp_variable_value value)) (wire_value value)
unfolding wire_value
Reads-value value = Reads-string16_truncated (clamp_variable_value value)

-- What fits the other fields of the wire.
pub record IsGlobalSet (m : GlobalVarSetMessage) : Type 0 where
  pub sender : m.sender_client_no < 2 ^ 16
  pub device : length m.device_id ≤ 255

pub record IsClientSet (m : ClientVarSetMessage) : Type 0 where
  pub sender : m.sender_client_no < 2 ^ 16
  pub device : length m.device_id ≤ 255
  pub target : m.target_client_no < 2 ^ 16

abbrev pub wire_global_set : GlobalVarSetMessage → GlobalVarSetMessage
wire_global_set m = record m {
  variable_name = wire_name m.variable_name;
  variable_value = wire_value m.variable_value;
}

abbrev pub wire_client_set : ClientVarSetMessage → ClientVarSetMessage
wire_client_set m = record m {
  variable_name = wire_name m.variable_name;
  variable_value = wire_value m.variable_value;
}

Reads-global_var_set :
    (m : GlobalVarSetMessage)
    → IsGlobalSet m
    → Reads global_var_set_fields (serialize_global_var_set m) (wire_global_set m)
unfolding global_var_set_fields serialize_global_var_set
Reads-global_var_set m v = Reads-begin msg_global_var_set (omega arith) (
    Reads-bind _ (Reads-u16 m.sender_client_no v.sender) (
      Reads-bind _ (Reads-string8 m.device_id v.device) (
        Reads-bind _ (Reads-name m.variable_name) (
          Reads-bind _ (Reads-value m.variable_value)
            (Reads-then Reads-check_ok (Reads-pure (wire_global_set m)))))))

Reads-client_var_set :
    (m : ClientVarSetMessage)
    → IsClientSet m
    → Reads client_var_set_fields (serialize_client_var_set m) (wire_client_set m)
unfolding client_var_set_fields serialize_client_var_set
Reads-client_var_set m v = Reads-begin msg_client_var_set (omega arith) (
    Reads-bind _ (Reads-u16 m.sender_client_no v.sender) (
      Reads-bind _ (Reads-string8 m.device_id v.device) (
        Reads-bind _ (Reads-u16 m.target_client_no v.target) (
          Reads-bind _ (Reads-name m.variable_name) (
            Reads-bind _ (Reads-value m.variable_value)
              (Reads-then Reads-check_ok (Reads-pure (wire_client_set m))))))))

-- A variable whose text survives: within the limits of code points and of the length fields.
pub record IsShort (name value : List ℕ) : Type 0 where
  pub name_points : code_point_length name ≤ max_variable_name_chars
  pub name_bytes : length name ≤ 255
  pub value_points : code_point_length value ≤ max_variable_value_chars
  pub value_bytes : length value ≤ 65535

global_set_short :
    (m : GlobalVarSetMessage) → IsShort m.variable_name m.variable_value → wire_global_set m ≡ m
global_set_short m s = rw (
  wire_name_short m.variable_name s.name_points s.name_bytes,
  wire_value_short m.variable_value s.value_points s.value_bytes,
)

client_set_short :
    (m : ClientVarSetMessage) → IsShort m.variable_name m.variable_value → wire_client_set m ≡ m
client_set_short m s = rw (
  wire_name_short m.variable_name s.name_points s.name_bytes,
  wire_value_short m.variable_value s.value_points s.value_bytes,
)

-- A request to set a global variable is read back as it was written, whatever follows it, if its
-- name has at most 64 code points in 255 bytes, its value at most 1024 code points in 65535 bytes,
-- the sender and device id fit their fields, and all of it has fewer than 2 ^ 64 bytes.
pub deserialize-serialize_global_var_set :
    (m : GlobalVarSetMessage) (rest : List ℕ)
    → IsGlobalSet m
    → IsShort m.variable_name m.variable_value
    → length (serialize_global_var_set m ++ rest) < 2 ^ 64
    → deserialize_global_var_set (serialize_global_var_set m ++ rest) ≡ some m
unfolding deserialize_global_var_set
deserialize-serialize_global_var_set m rest v s fits =
    Reads-decode global_var_set_fields rest (Reads-global_var_set m v) fits
    ∙ ap some (global_set_short m s)

-- A request to set a client variable is read back as it was written, whatever follows it, if its
-- name has at most 64 code points in 255 bytes, its value at most 1024 code points in 65535 bytes,
-- the sender, the target and the device id fit their fields, and all of it has fewer than 2 ^ 64
-- bytes.
pub deserialize-serialize_client_var_set :
    (m : ClientVarSetMessage) (rest : List ℕ)
    → IsClientSet m
    → IsShort m.variable_name m.variable_value
    → length (serialize_client_var_set m ++ rest) < 2 ^ 64
    → deserialize_client_var_set (serialize_client_var_set m ++ rest) ≡ some m
unfolding deserialize_client_var_set
deserialize-serialize_client_var_set m rest v s fits =
    Reads-decode client_var_set_fields rest (Reads-client_var_set m v) fits
    ∙ ap some (client_set_short m s)

some_name : Option GlobalVarSetMessage → List ℕ
some_name none = []
some_name (some m) = m.variable_name

-- A global variable whose name takes more than 255 bytes never comes back under that name, even
-- if it has at most 64 code points.
pub global_var_set_long_name :
    (m : GlobalVarSetMessage) (rest : List ℕ)
    → IsGlobalSet m
    → 255 < length m.variable_name
    → length (serialize_global_var_set m ++ rest) < 2 ^ 64
    → (m' : GlobalVarSetMessage) × (deserialize_global_var_set (serialize_global_var_set m ++ rest)
        ≡ some m')
      × (m'.variable_name ≢ m.variable_name)
unfolding deserialize_global_var_set
global_var_set_long_name m rest v long fits = (
  wire_global_set m,
  Reads-decode global_var_set_fields rest (Reads-global_var_set m v) fits,
  λ e. omega (arith, ap length e, length-wire_name m.variable_name),
)

pub record IsClear (m : ClientVarClearMessage) : Type 0 where
  pub sender : m.sender_client_no < 2 ^ 16
  pub device : length m.device_id ≤ 255

Reads-client_var_clear :
    (m : ClientVarClearMessage)
    → IsClear m
    → Reads client_var_clear_fields (serialize_client_var_clear m) m
unfolding client_var_clear_fields serialize_client_var_clear
Reads-client_var_clear m v = Reads-begin msg_client_var_clear (omega arith) (
    Reads-bind _ (Reads-u16 m.sender_client_no v.sender) (
      Reads-bind _ (Reads-string8 m.device_id v.device) (Reads-then Reads-check_ok (Reads-pure m))))

-- A request to clear the own variables is read back as it was written, whatever follows it, if the
-- sender and the device id fit their fields and all of it has fewer than 2 ^ 64 bytes.
pub deserialize-serialize_client_var_clear :
    (m : ClientVarClearMessage) (rest : List ℕ)
    → IsClear m
    → length (serialize_client_var_clear m ++ rest) < 2 ^ 64
    → deserialize_client_var_clear (serialize_client_var_clear m ++ rest) ≡ some m
unfolding deserialize_client_var_clear
deserialize-serialize_client_var_clear m rest v fits =
    Reads-decode client_var_clear_fields rest (Reads-client_var_clear m v) fits

Stable-global_var_set : Stable global_var_set_fields
unfolding global_var_set_fields
Stable-global_var_set = search (stable_rules, Stable-begin) depth 24

Ends-global_var_set : Ends global_var_set_fields
unfolding global_var_set_fields
Ends-global_var_set = search stable_rules depth 24

-- The bytes of a request to set a global variable, fewer than 2 ^ 64, are refused if they are cut
-- anywhere before their end, whatever the name and the value, if the sender and the device id fit
-- their fields.
pub deserialize_global_var_set_cut :
    (m : GlobalVarSetMessage) (front back : List ℕ) (x : ℕ)
    → IsGlobalSet m
    → serialize_global_var_set m ≡ front ++ (x ∷ back)
    → length (front ++ (x ∷ back)) < 2 ^ 64
    → deserialize_global_var_set front ≡ none
unfolding deserialize_global_var_set
deserialize_global_var_set_cut m front back x v e fits =
    decode-cut global_var_set_fields front back x (wire_global_set m) Stable-global_var_set
      Ends-global_var_set (Reads-subst (Reads-global_var_set m v) e refl) fits

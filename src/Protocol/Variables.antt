-- ===== src/Protocol/Variables.antt =====
-- The network variable messages of src/protocol/protocol_v8.*.
pub mod RoundTrip
pub mod Snapshots
use styly_net_sync_godot.Base.{
  ℕ, ◌%◌, ◌^◌, Bool, true, false, Option, List, [], ◌∷◌, length, concat, map,
}
use styly_net_sync_godot.Wire.Utf8.{truncate_utf8_code_points}
use styly_net_sync_godot.Wire.Writer.{write_u8, write_u16, write_string8, write_string16}
use styly_net_sync_godot.Wire.Reader.{read_u16, read_string8, read_string16}
use styly_net_sync_godot.Wire.Decode.{Decode, ◌>>=◌, ◌>>◌, pure, field, check_ok, repeat, decode}
use styly_net_sync_godot.Protocol.Begin.{
  msg_global_var_set, msg_global_var_sync, msg_client_var_set, msg_client_var_sync,
  msg_client_var_clear, begin_message,
}

abbrev pub max_variable_name_chars : ℕ
max_variable_name_chars = 64

abbrev pub max_variable_value_chars : ℕ
max_variable_value_chars = 1024

unfoldable pub clamp_variable_name : List ℕ → List ℕ
clamp_variable_name name = truncate_utf8_code_points name max_variable_name_chars

unfoldable pub clamp_variable_value : List ℕ → List ℕ
clamp_variable_value value = truncate_utf8_code_points value max_variable_value_chars

pub record GlobalVarSetMessage : Type 0 where
  pub sender_client_no : ℕ
  pub device_id : List ℕ
  pub variable_name : List ℕ
  pub variable_value : List ℕ

unfoldable pub serialize_global_var_set : GlobalVarSetMessage → List ℕ
serialize_global_var_set m = concat (
    write_u8 msg_global_var_set
    ∷ write_u16 m.sender_client_no
    ∷ write_string8 m.device_id
    ∷ write_string8 (clamp_variable_name m.variable_name)
    ∷ write_string16 (clamp_variable_value m.variable_value)
    ∷ [])

unfoldable pub global_var_set_fields : Decode GlobalVarSetMessage
global_var_set_fields = do
  begin_message msg_global_var_set false
  sender_client_no ← field read_u16
  device_id ← field read_string8
  variable_name ← field read_string8
  variable_value ← field read_string16
  check_ok
  pure (record {
    sender_client_no = sender_client_no;
    device_id = device_id;
    variable_name = variable_name;
    variable_value = variable_value;
  })

unfoldable pub deserialize_global_var_set : List ℕ → Option GlobalVarSetMessage
deserialize_global_var_set = decode global_var_set_fields

pub record ClientVarSetMessage : Type 0 where
  pub sender_client_no : ℕ
  pub device_id : List ℕ
  pub target_client_no : ℕ
  pub variable_name : List ℕ
  pub variable_value : List ℕ

unfoldable pub serialize_client_var_set : ClientVarSetMessage → List ℕ
serialize_client_var_set m = concat (
    write_u8 msg_client_var_set
    ∷ write_u16 m.sender_client_no
    ∷ write_string8 m.device_id
    ∷ write_u16 m.target_client_no
    ∷ write_string8 (clamp_variable_name m.variable_name)
    ∷ write_string16 (clamp_variable_value m.variable_value)
    ∷ [])

unfoldable pub client_var_set_fields : Decode ClientVarSetMessage
client_var_set_fields = do
  begin_message msg_client_var_set false
  sender_client_no ← field read_u16
  device_id ← field read_string8
  target_client_no ← field read_u16
  variable_name ← field read_string8
  variable_value ← field read_string16
  check_ok
  pure (record {
    sender_client_no = sender_client_no;
    device_id = device_id;
    target_client_no = target_client_no;
    variable_name = variable_name;
    variable_value = variable_value;
  })

unfoldable pub deserialize_client_var_set : List ℕ → Option ClientVarSetMessage
deserialize_client_var_set = decode client_var_set_fields

pub record ClientVarClearMessage : Type 0 where
  pub sender_client_no : ℕ
  pub device_id : List ℕ

unfoldable pub serialize_client_var_clear : ClientVarClearMessage → List ℕ
serialize_client_var_clear m =
    concat (
      write_u8 msg_client_var_clear ∷ write_u16 m.sender_client_no ∷ write_string8 m.device_id ∷ [])

unfoldable pub client_var_clear_fields : Decode ClientVarClearMessage
client_var_clear_fields = do
  begin_message msg_client_var_clear false
  sender_client_no ← field read_u16
  device_id ← field read_string8
  check_ok
  pure (record { sender_client_no = sender_client_no; device_id = device_id })

unfoldable pub deserialize_client_var_clear : List ℕ → Option ClientVarClearMessage
deserialize_client_var_clear = decode client_var_clear_fields

pub record NetworkVariableEntry : Type 0 where
  pub name : List ℕ
  pub value : List ℕ
  pub last_writer_client_no : ℕ

-- The body of the loops over entries, the same in the four functions that have one.
unfoldable pub write_entry : NetworkVariableEntry → List ℕ
write_entry entry = concat (
    write_string8 (clamp_variable_name entry.name)
    ∷ write_string16 (clamp_variable_value entry.value)
    ∷ write_u16 entry.last_writer_client_no
    ∷ [])

unfoldable pub entry_fields : Decode NetworkVariableEntry
entry_fields = do
  name ← field read_string8
  value ← field read_string16
  last_writer_client_no ← field read_u16
  check_ok
  pure (record { name = name; value = value; last_writer_client_no = last_writer_client_no })

pub record GlobalVarSyncMessage : Type 0 where
  pub variables : List NetworkVariableEntry

unfoldable pub serialize_global_var_sync : GlobalVarSyncMessage → List ℕ
serialize_global_var_sync m = concat (
    write_u8 msg_global_var_sync
    ∷ write_u16 (length m.variables % 2 ^ 16)
    ∷ concat (map write_entry m.variables)
    ∷ [])

unfoldable pub global_var_sync_fields : Decode GlobalVarSyncMessage
global_var_sync_fields = do
  begin_message msg_global_var_sync false
  count ← field read_u16
  check_ok
  variables ← repeat count entry_fields
  check_ok
  pure (record { variables = variables })

unfoldable pub deserialize_global_var_sync : List ℕ → Option GlobalVarSyncMessage
deserialize_global_var_sync = decode global_var_sync_fields

-- One authoritative snapshot per client number, in wire order.
pub record ClientVarSyncMessage : Type 0 where
  pub clients : List (ℕ × List NetworkVariableEntry)

unfoldable pub write_snapshot : ℕ × List NetworkVariableEntry → List ℕ
write_snapshot (client_no, entries) = concat (
    write_u16 client_no
    ∷ write_u16 (length entries % 2 ^ 16)
    ∷ concat (map write_entry entries)
    ∷ [])

unfoldable pub serialize_client_var_sync : ClientVarSyncMessage → List ℕ
serialize_client_var_sync m = concat (
    write_u8 msg_client_var_sync
    ∷ write_u16 (length m.clients % 2 ^ 16)
    ∷ concat (map write_snapshot m.clients)
    ∷ [])

unfoldable pub snapshot_fields : Decode (ℕ × List NetworkVariableEntry)
snapshot_fields = do
  client_no ← field read_u16
  var_count ← field read_u16
  check_ok
  entries ← repeat var_count entry_fields
  pure (client_no, entries)

unfoldable pub client_var_sync_fields : Decode ClientVarSyncMessage
client_var_sync_fields = do
  begin_message msg_client_var_sync false
  client_count ← field read_u16
  check_ok
  clients ← repeat client_count snapshot_fields
  check_ok
  pure (record { clients = clients })

unfoldable pub deserialize_client_var_sync : List ℕ → Option ClientVarSyncMessage
deserialize_client_var_sync = decode client_var_sync_fields

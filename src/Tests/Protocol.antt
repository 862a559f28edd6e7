-- ===== src/Tests/Protocol.antt =====
-- Messages of src/protocol/protocol_v8.* at which the theorems on them apply.
use styly_net_sync_godot.Base.{
  ℕ, ◌^◌, ◌<◌, ◌≡◌, arith, true, false, some, List, [], ◌∷◌, ◌++◌, length,
}
use styly_net_sync_godot.Wire.Writer.{write_u8, write_u16, write_u32, write_string8, write_string16}
use styly_net_sync_godot.Wire.Utf8.{
  truncate_utf8_bytes, truncate_utf8_code_points, code_point_length, cut_index, is_continuation,
}
use styly_net_sync_godot.Protocol.Session.{
  RpcMessage, serialize_rpc, deserialize_rpc, DeviceIdMappingMessage,
}
use styly_net_sync_godot.Protocol.Session.RoundTrip.{IsRpc, deserialize-serialize_rpc}
use styly_net_sync_godot.Protocol.Variables.{
  NetworkVariableEntry, write_entry, GlobalVarSyncMessage, ClientVarSyncMessage, write_snapshot,
  serialize_client_var_sync, deserialize_client_var_sync, clamp_variable_name, clamp_variable_value,
}
use styly_net_sync_godot.Protocol.Variables.RoundTrip.{IsShort}
use styly_net_sync_godot.Protocol.Variables.Snapshots.{
  IsEntry, IsClientSync, deserialize-serialize_client_var_sync,
}

abbrev tail : List ℕ
tail = 1 ∷ 2 ∷ []

abbrev call : RpcMessage
call = record {
  sender_client_no = 3;
  device_id = 100 ∷ 49 ∷ [];
  target_client_nos = 7 ∷ 300 ∷ [];
  function_name = 104 ∷ 105 ∷ [];
  arguments_json = 91 ∷ 93 ∷ [];
}

call-IsRpc : IsRpc call
call-IsRpc = record {
  sender = omega arith;
  device = omega arith;
  target_count = omega arith;
  targets = (omega arith, (omega arith, tt));
  name = omega arith;
  arguments = omega arith;
}

call-length : length (serialize_rpc call ++ tail) < 2 ^ 64
unfolding serialize_rpc write_u8 write_u16 write_u32 write_string8 write_string16
    truncate_utf8_bytes is_continuation
call-length = omega arith

deserialize-serialize_rpc_example : deserialize_rpc (serialize_rpc call ++ tail) ≡ some call
deserialize-serialize_rpc_example = deserialize-serialize_rpc call tail call-IsRpc call-length

abbrev table : DeviceIdMappingMessage
table = record {
  server_version_major = 0;
  server_version_minor = 12;
  server_version_patch = 1;
  mappings =
      record { client_no = 1; device_id = 97 ∷ []; is_stealth = false }
      ∷ record { client_no = 2; device_id = 98 ∷ []; is_stealth = true }
      ∷ [];
}

-- U+1F600.
abbrev emoji : List ℕ
emoji = 0xF0 ∷ 0x9F ∷ 0x98 ∷ 0x80 ∷ []

score-IsShort : IsShort (115 ∷ emoji) (52 ∷ 50 ∷ [])
unfolding code_point_length is_continuation
score-IsShort = record {
  name_points = omega arith;
  name_bytes = omega arith;
  value_points = omega arith;
  value_bytes = omega arith;
}

abbrev entry : NetworkVariableEntry
entry = record { name = 115 ∷ emoji; value = 52 ∷ 50 ∷ []; last_writer_client_no = 3 }

entry-IsEntry : IsEntry entry
entry-IsEntry = record { short = score-IsShort; writer = omega arith }

abbrev globals : GlobalVarSyncMessage
globals = record { variables = entry ∷ entry ∷ [] }

abbrev clients : ClientVarSyncMessage
clients = record { clients = (5, entry ∷ []) ∷ (6, []) ∷ [] }

clients-IsClientSync : IsClientSync clients
clients-IsClientSync = record {
  count = omega arith;
  snapshots =
      ((omega arith, omega arith, (entry-IsEntry, tt)), ((omega arith, omega arith, tt), tt));
}

clients-length : length (serialize_client_var_sync clients ++ tail) < 2 ^ 64
unfolding serialize_client_var_sync write_snapshot write_entry clamp_variable_name
    clamp_variable_value truncate_utf8_code_points cut_index write_u8 write_u16 write_u32
    write_string8 write_string16 truncate_utf8_bytes is_continuation
clients-length = omega arith

deserialize-serialize_client_var_sync_example :
    deserialize_client_var_sync (serialize_client_var_sync clients ++ tail) ≡ some clients
deserialize-serialize_client_var_sync_example =
    deserialize-serialize_client_var_sync clients tail clients-IsClientSync clients-length

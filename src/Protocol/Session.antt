-- ===== src/Protocol/Session.antt =====
-- The client hello, RPC and device-id mapping messages of src/protocol/protocol_v8.*.
pub mod RoundTrip
use styly_net_sync_godot.Base.{
  ℕ, ◌%◌, ◌^◌, ◌≤◌, ◌<◌, min, bit_and, Bool, true, false, not, Option, List, [], ◌∷◌, if◌then◌else◌,
  ◌==◌, length, take, concat, map,
}
use styly_net_sync_godot.Wire.Writer.{write_u8, write_u16, write_string8, write_string16}
use styly_net_sync_godot.Wire.Reader.{read_u8, read_u16, read_string8, read_string16}
use styly_net_sync_godot.Wire.Decode.{Decode, ◌>>=◌, ◌>>◌, pure, field, check_ok, repeat, decode}
use styly_net_sync_godot.Protocol.Begin.{
  protocol_version, msg_client_hello, msg_rpc, msg_device_id_mapping, begin_message,
}

pub record ClientHelloMessage : Type 0 where
  pub device_id : List ℕ
  pub flags : ℕ

abbrev pub client_hello_flag_stealth : ℕ
client_hello_flag_stealth = 1

unfoldable pub is_stealth : ClientHelloMessage → Bool
is_stealth m = not (bit_and m.flags client_hello_flag_stealth == 0)

unfoldable pub serialize_client_hello : List ℕ → Bool → List ℕ
serialize_client_hello device_id stealth = concat (
    write_u8 msg_client_hello
    ∷ write_u8 protocol_version
    ∷ write_u8 (if stealth then client_hello_flag_stealth else 0)
    ∷ write_string8 device_id
    ∷ [])

unfoldable pub client_hello_fields : Decode ClientHelloMessage
client_hello_fields = do
  begin_message msg_client_hello true
  flags ← field read_u8
  device_id ← field read_string8
  check_ok
  pure (record { device_id = device_id; flags = flags })

unfoldable pub deserialize_client_hello : List ℕ → Option ClientHelloMessage
deserialize_client_hello = decode client_hello_fields

pub record RpcMessage : Type 0 where
  pub sender_client_no : ℕ
  pub device_id : List ℕ
  -- Empty means a broadcast to the whole room.
  pub target_client_nos : List ℕ
  pub function_name : List ℕ
  pub arguments_json : List ℕ

unfoldable pub serialize_rpc : RpcMessage → List ℕ
serialize_rpc m =
    let target_count = min (length m.target_client_nos) 255 in
    concat (
      write_u8 msg_rpc
      ∷ write_u16 m.sender_client_no
      ∷ write_string8 m.device_id
      ∷ write_u8 target_count
      ∷ concat (map write_u16 (take target_count m.target_client_nos))
      ∷ write_string8 m.function_name
      ∷ write_string16 m.arguments_json
      ∷ [])

-- The loop over the targets has no check of its own: one `ok` at the end covers it.
unfoldable pub rpc_fields : Decode RpcMessage
rpc_fields = do
  begin_message msg_rpc false
  sender_client_no ← field read_u16
  device_id ← field read_string8
  target_count ← field read_u8
  check_ok
  target_client_nos ← repeat target_count (field read_u16)
  function_name ← field read_string8
  arguments_json ← field read_string16
  check_ok
  pure (record {
    sender_client_no = sender_client_no;
    device_id = device_id;
    target_client_nos = target_client_nos;
    function_name = function_name;
    arguments_json = arguments_json;
  })

unfoldable pub deserialize_rpc : List ℕ → Option RpcMessage
deserialize_rpc = decode rpc_fields

pub record DeviceIdMappingEntry : Type 0 where
  pub client_no : ℕ
  pub device_id : List ℕ
  pub is_stealth : Bool

pub record DeviceIdMappingMessage : Type 0 where
  pub server_version_major : ℕ
  pub server_version_minor : ℕ
  pub server_version_patch : ℕ
  pub mappings : List DeviceIdMappingEntry

unfoldable pub write_mapping_entry : DeviceIdMappingEntry → List ℕ
write_mapping_entry entry = concat (
    write_u16 entry.client_no
    ∷ write_u8 (if entry.is_stealth then 1 else 0)
    ∷ write_string8 entry.device_id
    ∷ [])

unfoldable pub serialize_device_id_mapping : DeviceIdMappingMessage → List ℕ
serialize_device_id_mapping m = concat (
    write_u8 msg_device_id_mapping
    ∷ write_u8 m.server_version_major
    ∷ write_u8 m.server_version_minor
    ∷ write_u8 m.server_version_patch
    ∷ write_u16 (length m.mappings % 2 ^ 16)
    ∷ concat (map write_mapping_entry m.mappings)
    ∷ [])

unfoldable pub mapping_entry_fields : Decode DeviceIdMappingEntry
mapping_entry_fields = do
  client_no ← field read_u16
  stealth ← field read_u8
  device_id ← field read_string8
  check_ok
  pure (record { client_no = client_no; device_id = device_id; is_stealth = stealth == 1 })

unfoldable pub device_id_mapping_fields : Decode DeviceIdMappingMessage
device_id_mapping_fields = do
  begin_message msg_device_id_mapping false
  major ← field read_u8
  minor ← field read_u8
  patch ← field read_u8
  count ← field read_u16
  check_ok
  mappings ← repeat count mapping_entry_fields
  check_ok
  pure (record {
    server_version_major = major;
    server_version_minor = minor;
    server_version_patch = patch;
    mappings = mappings;
  })

unfoldable pub deserialize_device_id_mapping : List ℕ → Option DeviceIdMappingMessage
deserialize_device_id_mapping = decode device_id_mapping_fields

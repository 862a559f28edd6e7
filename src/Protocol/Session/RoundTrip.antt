-- ===== src/Protocol/Session/RoundTrip.antt =====
-- What the session messages of src/protocol/protocol_v8.cpp read back, and that they refuse a cut.
use styly_net_sync_godot.Base.{
  ℕ, ◌%◌, ◌^◌, ◌≤◌, ◌<◌, ◌≡◌, refl, ap, min, Bool, true, false, none, some, List, ◌∷◌, ◌++◌, arith,
  if◌then◌else◌, ◌==◌, length, All, take_all,
}
use styly_net_sync_godot.Wire.Writer.{write_u16}
use styly_net_sync_godot.Wire.Reader.{read_u16}
use styly_net_sync_godot.Wire.Decode.{field}
use styly_net_sync_godot.Wire.Decode.RoundTrip.{
  Reads, Reads-subst, Reads-bind, Reads-then, Reads-pure, Reads-check_ok, Reads-u8, Reads-u16,
  Reads-string8, Reads-string16, Reads-repeat, Reads-decode,
}
use styly_net_sync_godot.Wire.Decode.Stable.{Stable, Ends, decode-cut, stable_rules}
use styly_net_sync_godot.Protocol.Begin.{
  msg_client_hello, msg_rpc, msg_device_id_mapping, Reads-begin, Reads-begin_version, Stable-begin,
}
use styly_net_sync_godot.Protocol.Session.{
  ClientHelloMessage, client_hello_flag_stealth, is_stealth, serialize_client_hello,
  client_hello_fields, deserialize_client_hello, RpcMessage, serialize_rpc, rpc_fields,
  deserialize_rpc, DeviceIdMappingEntry, DeviceIdMappingMessage, write_mapping_entry,
  serialize_device_id_mapping, mapping_entry_fields, device_id_mapping_fields,
  deserialize_device_id_mapping,
}

-- What fits the fields of the wire.
pub record IsRpc (m : RpcMessage) : Type 0 where
  pub sender : m.sender_client_no < 2 ^ 16
  pub device : length m.device_id ≤ 255
  pub target_count : length m.target_client_nos ≤ 255
  pub targets : All (λ t. t < 2 ^ 16) m.target_client_nos
  pub name : length m.function_name ≤ 255
  pub arguments : length m.arguments_json ≤ 65535

Reads-rpc_fields : (m : RpcMessage) → IsRpc m → Reads rpc_fields (serialize_rpc m) m
unfolding rpc_fields serialize_rpc
Reads-rpc_fields m v =
    let count : min (length m.target_client_nos) 255 ≡ length m.target_client_nos =
      omega (arith, v.target_count) in
    rw (count, take_all (length m.target_client_nos) m.target_client_nos (omega arith))
      (Reads-begin msg_rpc (omega arith) (
        Reads-bind _ (Reads-u16 m.sender_client_no v.sender) (
          Reads-bind _ (Reads-string8 m.device_id v.device) (
            Reads-bind _ (Reads-u8 (length m.target_client_nos) (omega (arith, v.target_count))) (
              Reads-then Reads-check_ok (
                Reads-bind _
                  (Reads-repeat (field read_u16) write_u16 (λ t. t < 2 ^ 16) m.target_client_nos
                    Reads-u16 v.targets)
                  (Reads-bind _ (Reads-string8 m.function_name v.name) (
                    Reads-bind _ (Reads-string16 m.arguments_json v.arguments)
                      (Reads-then Reads-check_ok (Reads-pure m))))))))))

Stable-rpc_fields : Stable rpc_fields
unfolding rpc_fields
Stable-rpc_fields = search (stable_rules, Stable-begin) depth 24

Ends-rpc_fields : Ends rpc_fields
unfolding rpc_fields
Ends-rpc_fields = search stable_rules depth 24

-- Bytes that `serialize_rpc` wrote are read back as the same message, whatever follows them, if the
-- client numbers fit 16 bits, there are at most 255 targets, the texts fit their lengths and all of
-- it has fewer than 2 ^ 64 bytes.
pub deserialize-serialize_rpc :
    (m : RpcMessage) (rest : List ℕ)
    → IsRpc m
    → length (serialize_rpc m ++ rest) < 2 ^ 64
    → deserialize_rpc (serialize_rpc m ++ rest) ≡ some m
unfolding deserialize_rpc
deserialize-serialize_rpc m rest v fits = Reads-decode rpc_fields rest (Reads-rpc_fields m v) fits

-- The bytes of an RPC whose values fit their fields, fewer than 2 ^ 64, are refused if they are cut
-- anywhere before their end.
pub deserialize_rpc_cut :
    (m : RpcMessage) (front back : List ℕ) (x : ℕ)
    → IsRpc m
    → serialize_rpc m ≡ front ++ (x ∷ back)
    → length (front ++ (x ∷ back)) < 2 ^ 64
    → deserialize_rpc front ≡ none
unfolding deserialize_rpc
deserialize_rpc_cut m front back x v e fits =
    decode-cut rpc_fields front back x m Stable-rpc_fields Ends-rpc_fields
      (Reads-subst (Reads-rpc_fields m v) e refl) fits

abbrev hello_of : List ℕ → Bool → ClientHelloMessage
hello_of device_id stealth = record {
  device_id = device_id;
  flags = if stealth then client_hello_flag_stealth else 0;
}

hello_flags : (stealth : Bool) → (if stealth then client_hello_flag_stealth else 0) < 2 ^ 8
hello_flags stealth = ground arith

Reads-client_hello_fields :
    (device_id : List ℕ) (stealth : Bool)
    → length device_id ≤ 255
    → Reads client_hello_fields
        (serialize_client_hello device_id stealth)
        (hello_of device_id stealth)
unfolding client_hello_fields serialize_client_hello
Reads-client_hello_fields device_id stealth h = Reads-begin_version msg_client_hello (omega arith) (
    Reads-bind _ (Reads-u8 _ (hello_flags stealth)) (
      Reads-bind _ (Reads-string8 device_id h)
        (Reads-then Reads-check_ok (Reads-pure (hello_of device_id stealth)))))

hello_stealth :
    (device_id : List ℕ) (stealth : Bool) → is_stealth (hello_of device_id stealth) ≡ stealth
unfolding is_stealth
hello_stealth device_id true = refl
hello_stealth device_id false = refl

-- A hello names the device and says whether the client is stealth, and both come back, whatever
-- follows the bytes, if the device id has at most 255 bytes and all of it fewer than 2 ^ 64.
pub deserialize-serialize_client_hello :
    (device_id rest : List ℕ) (stealth : Bool)
    → length device_id ≤ 255
    → length (serialize_client_hello device_id stealth ++ rest) < 2 ^ 64
    → (m : ClientHelloMessage) × (deserialize_client_hello
          (serialize_client_hello device_id stealth ++ rest)
        ≡ some m)
      × (m.device_id ≡ device_id)
      × (is_stealth m ≡ stealth)
unfolding deserialize_client_hello
deserialize-serialize_client_hello device_id rest stealth h fits = (
  hello_of device_id stealth,
  Reads-decode client_hello_fields rest (Reads-client_hello_fields device_id stealth h) fits,
  refl,
  hello_stealth device_id stealth,
)

pub record IsMappingEntry (entry : DeviceIdMappingEntry) : Type 0 where
  pub number : entry.client_no < 2 ^ 16
  pub device : length entry.device_id ≤ 255

pub record IsMapping (m : DeviceIdMappingMessage) : Type 0 where
  pub major : m.server_version_major < 2 ^ 8
  pub minor : m.server_version_minor < 2 ^ 8
  pub patch : m.server_version_patch < 2 ^ 8
  pub count : length m.mappings < 2 ^ 16
  pub entries : All IsMappingEntry m.mappings

stealth_byte : (b : Bool) → ((if b then 1 else 0) == 1) ≡ b
stealth_byte true = refl
stealth_byte false = refl

Reads-mapping_entry :
    (entry : DeviceIdMappingEntry)
    → IsMappingEntry entry
    → Reads mapping_entry_fields (write_mapping_entry entry) entry
unfolding mapping_entry_fields write_mapping_entry
Reads-mapping_entry entry v =
    Reads-subst
      (Reads-bind _ (Reads-u16 entry.client_no v.number) (
        Reads-bind _ (Reads-u8 (if entry.is_stealth then 1 else 0) (ground arith)) (
          Reads-bind _ (Reads-string8 entry.device_id v.device)
            (Reads-then Reads-check_ok (Reads-pure _)))))
      refl (ap (λ b. record entry { is_stealth = b }) (stealth_byte entry.is_stealth))

Reads-device_id_mapping_fields :
    (m : DeviceIdMappingMessage)
    → IsMapping m
    → Reads device_id_mapping_fields (serialize_device_id_mapping m) m
unfolding device_id_mapping_fields serialize_device_id_mapping
Reads-device_id_mapping_fields m v =
    let count : length m.mappings % 2 ^ 16 ≡ length m.mappings = omega (arith, v.count) in
    rw count (
      Reads-begin msg_device_id_mapping (omega arith) (
        Reads-bind _ (Reads-u8 m.server_version_major v.major) (
          Reads-bind _ (Reads-u8 m.server_version_minor v.minor) (
            Reads-bind _ (Reads-u8 m.server_version_patch v.patch) (
              Reads-bind _ (Reads-u16 (length m.mappings) v.count) (
                Reads-then Reads-check_ok (
                  Reads-bind _
                    (Reads-repeat mapping_entry_fields write_mapping_entry IsMappingEntry m.mappings
                      Reads-mapping_entry v.entries)
                    (Reads-then Reads-check_ok (Reads-pure m)))))))))

-- Bytes that `serialize_device_id_mapping` wrote are read back as the same table, whatever follows
-- them, if it has fewer than 65536 entries, each value fits its field, and all of it has fewer than
-- 2 ^ 64 bytes.
pub deserialize-serialize_device_id_mapping :
    (m : DeviceIdMappingMessage) (rest : List ℕ)
    → IsMapping m
    → length (serialize_device_id_mapping m ++ rest) < 2 ^ 64
    → deserialize_device_id_mapping (serialize_device_id_mapping m ++ rest) ≡ some m
unfolding deserialize_device_id_mapping
deserialize-serialize_device_id_mapping m rest v fits =
    Reads-decode device_id_mapping_fields rest (Reads-device_id_mapping_fields m v) fits

Stable-mapping_entry : Stable mapping_entry_fields
unfolding mapping_entry_fields
Stable-mapping_entry = search stable_rules depth 24

Stable-device_id_mapping_fields : Stable device_id_mapping_fields
unfolding device_id_mapping_fields
Stable-device_id_mapping_fields = search (stable_rules, Stable-begin, Stable-mapping_entry) depth 24

Ends-device_id_mapping_fields : Ends device_id_mapping_fields
unfolding device_id_mapping_fields
Ends-device_id_mapping_fields = search stable_rules depth 24

-- The bytes of a device-id mapping whose values fit their fields, fewer than 2 ^ 64, are refused if
-- they are cut anywhere before their end.
pub deserialize_device_id_mapping_cut :
    (m : DeviceIdMappingMessage) (front back : List ℕ) (x : ℕ)
    → IsMapping m
    → serialize_device_id_mapping m ≡ front ++ (x ∷ back)
    → length (front ++ (x ∷ back)) < 2 ^ 64
    → deserialize_device_id_mapping front ≡ none
unfolding deserialize_device_id_mapping
deserialize_device_id_mapping_cut m front back x v e fits =
    decode-cut device_id_mapping_fields front back x m Stable-device_id_mapping_fields
      Ends-device_id_mapping_fields (Reads-subst (Reads-device_id_mapping_fields m v) e refl) fits

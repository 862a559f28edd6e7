-- ===== src/Protocol/Ownership.antt =====
-- The object ownership messages of src/protocol/protocol_v8.*.
pub mod RoundTrip
use styly_net_sync_godot.Base.{ℕ, Bool, true, false, Option, List, [], ◌∷◌, concat}
use styly_net_sync_godot.Wire.Writer.{write_u8, write_u16, write_u32, write_string8}
use styly_net_sync_godot.Wire.Reader.{read_u8, read_u16, read_u32, read_string8}
use styly_net_sync_godot.Wire.Decode.{Decode, ◌>>=◌, ◌>>◌, pure, field, check_ok, decode}
use styly_net_sync_godot.Protocol.Begin.{
  protocol_version, msg_object_ownership_request, msg_object_ownership_changed,
  msg_object_ownership_rejected, begin_message,
}

pub record ObjectOwnershipRequestMessage : Type 0 where
  pub device_id : List ℕ
  pub operation_type : ℕ
  pub object_id : ℕ

abbrev pub ownership_op_release : ℕ
ownership_op_release = 1

abbrev pub ownership_op_request : ℕ
ownership_op_request = 2

unfoldable pub serialize_object_ownership_request : ObjectOwnershipRequestMessage → List ℕ
serialize_object_ownership_request m = concat (
    write_u8 msg_object_ownership_request
    ∷ write_u8 protocol_version
    ∷ write_string8 m.device_id
    ∷ write_u8 m.operation_type
    ∷ write_u32 m.object_id
    ∷ [])

unfoldable pub ownership_request_fields : Decode ObjectOwnershipRequestMessage
ownership_request_fields = do
  begin_message msg_object_ownership_request true
  device_id ← field read_string8
  operation_type ← field read_u8
  object_id ← field read_u32
  check_ok
  pure (record { device_id = device_id; operation_type = operation_type; object_id = object_id })

unfoldable pub deserialize_object_ownership_request : List ℕ → Option ObjectOwnershipRequestMessage
deserialize_object_ownership_request = decode ownership_request_fields

pub record ObjectOwnershipChangedMessage : Type 0 where
  pub object_id : ℕ
  pub new_owner_client_no : ℕ
  pub previous_owner_client_no : ℕ

unfoldable pub serialize_object_ownership_changed : ObjectOwnershipChangedMessage → List ℕ
serialize_object_ownership_changed m = concat (
    write_u8 msg_object_ownership_changed
    ∷ write_u32 m.object_id
    ∷ write_u16 m.new_owner_client_no
    ∷ write_u16 m.previous_owner_client_no
    ∷ [])

unfoldable pub ownership_changed_fields : Decode ObjectOwnershipChangedMessage
ownership_changed_fields = do
  begin_message msg_object_ownership_changed false
  object_id ← field read_u32
  new_owner ← field read_u16
  previous_owner ← field read_u16
  check_ok
  pure (record {
    object_id = object_id;
    new_owner_client_no = new_owner;
    previous_owner_client_no = previous_owner;
  })

unfoldable pub deserialize_object_ownership_changed : List ℕ → Option ObjectOwnershipChangedMessage
deserialize_object_ownership_changed = decode ownership_changed_fields

pub record ObjectOwnershipRejectedMessage : Type 0 where
  pub object_id : ℕ
  pub current_owner_client_no : ℕ
  pub reason_code : ℕ

unfoldable pub serialize_object_ownership_rejected : ObjectOwnershipRejectedMessage → List ℕ
serialize_object_ownership_rejected m = concat (
    write_u8 msg_object_ownership_rejected
    ∷ write_u32 m.object_id
    ∷ write_u16 m.current_owner_client_no
    ∷ write_u8 m.reason_code
    ∷ [])

unfoldable pub ownership_rejected_fields : Decode ObjectOwnershipRejectedMessage
ownership_rejected_fields = do
  begin_message msg_object_ownership_rejected false
  object_id ← field read_u32
  current_owner ← field read_u16
  reason_code ← field read_u8
  check_ok
  pure (record {
    object_id = object_id;
    current_owner_client_no = current_owner;
    reason_code = reason_code;
  })

unfoldable pub deserialize_object_ownership_rejected :
    List ℕ → Option ObjectOwnershipRejectedMessage
deserialize_object_ownership_rejected = decode ownership_rejected_fields

-- ===== src/Protocol/Ownership/RoundTrip.antt =====
-- What the ownership messages of src/protocol/protocol_v8.cpp read back.
use styly_net_sync_godot.Base.{
  ℕ, ◌^◌, ◌≤◌, ◌<◌, ◌≡◌, refl, none, some, List, ◌∷◌, ◌++◌, arith, length,
}
use styly_net_sync_godot.Wire.Decode.RoundTrip.{
  Reads, Reads-subst, Reads-bind, Reads-then, Reads-pure, Reads-check_ok, Reads-u8, Reads-u16,
  Reads-u32, Reads-string8, Reads-decode,
}
use styly_net_sync_godot.Wire.Decode.Stable.{Stable, Ends, decode-cut, stable_rules}
use styly_net_sync_godot.Protocol.Begin.{
  msg_object_ownership_request, msg_object_ownership_changed, msg_object_ownership_rejected,
  Reads-begin, Reads-begin_version, Stable-begin,
}
use styly_net_sync_godot.Protocol.Ownership.{
  ObjectOwnershipRequestMessage, serialize_object_ownership_request, ownership_request_fields,
  deserialize_object_ownership_request, ObjectOwnershipChangedMessage,
  serialize_object_ownership_changed, ownership_changed_fields,
  deserialize_object_ownership_changed, ObjectOwnershipRejectedMessage,
  serialize_object_ownership_rejected, ownership_rejected_fields,
  deserialize_object_ownership_rejected,
}

-- What fits the fields of the wire.
pub record IsRequest (m : ObjectOwnershipRequestMessage) : Type 0 where
  pub device : length m.device_id ≤ 255
  pub operation : m.operation_type < 2 ^ 8
  pub object : m.object_id < 2 ^ 32

pub record IsChanged (m : ObjectOwnershipChangedMessage) : Type 0 where
  pub object : m.object_id < 2 ^ 32
  pub new_owner : m.new_owner_client_no < 2 ^ 16
  pub previous_owner : m.previous_owner_client_no < 2 ^ 16

pub record IsRejected (m : ObjectOwnershipRejectedMessage) : Type 0 where
  pub object : m.object_id < 2 ^ 32
  pub current_owner : m.current_owner_client_no < 2 ^ 16
  pub reason : m.reason_code < 2 ^ 8

pub Reads-ownership_request :
    (m : ObjectOwnershipRequestMessage)
    → IsRequest m
    → Reads ownership_request_fields (serialize_object_ownership_request m) m
unfolding ownership_request_fields serialize_object_ownership_request
Reads-ownership_request m v = Reads-begin_version msg_object_ownership_request (omega arith) (
    Reads-bind _ (Reads-string8 m.device_id v.device) (
      Reads-bind _ (Reads-u8 m.operation_type v.operation)
        (Reads-bind _ (Reads-u32 m.object_id v.object) (Reads-then Reads-check_ok (Reads-pure m)))))

Reads-ownership_changed :
    (m : ObjectOwnershipChangedMessage)
    → IsChanged m
    → Reads ownership_changed_fields (serialize_object_ownership_changed m) m
unfolding ownership_changed_fields serialize_object_ownership_changed
Reads-ownership_changed m v = Reads-begin msg_object_ownership_changed (omega arith) (
    Reads-bind _ (Reads-u32 m.object_id v.object) (
      Reads-bind _ (Reads-u16 m.new_owner_client_no v.new_owner) (
        Reads-bind _ (Reads-u16 m.previous_owner_client_no v.previous_owner)
          (Reads-then Reads-check_ok (Reads-pure m)))))

Reads-ownership_rejected :
    (m : ObjectOwnershipRejectedMessage)
    → IsRejected m
    → Reads ownership_rejected_fields (serialize_object_ownership_rejected m) m
unfolding ownership_rejected_fields serialize_object_ownership_rejected
Reads-ownership_rejected m v = Reads-begin msg_object_ownership_rejected (omega arith) (
    Reads-bind _ (Reads-u32 m.object_id v.object) (
      Reads-bind _ (Reads-u16 m.current_owner_client_no v.current_owner) (
        Reads-bind _ (Reads-u8 m.reason_code v.reason) (Reads-then Reads-check_ok (Reads-pure m)))))

-- An ownership request, an ownership change and a rejection whose values fit their fields, in fewer
-- than 2 ^ 64 bytes each, are each read back as they were written, whatever follows them.
pub deserialize-serialize_ownership :
    (q : ObjectOwnershipRequestMessage) (c : ObjectOwnershipChangedMessage)
    (j : ObjectOwnershipRejectedMessage) (rest : List ℕ)
    → IsRequest q
    → IsChanged c
    → IsRejected j
    → length (serialize_object_ownership_request q ++ rest) < 2 ^ 64
    → length (serialize_object_ownership_changed c ++ rest) < 2 ^ 64
    → length (serialize_object_ownership_rejected j ++ rest) < 2 ^ 64
    → (deserialize_object_ownership_request (serialize_object_ownership_request q ++ rest) ≡ some q)
      × (deserialize_object_ownership_changed (serialize_object_ownership_changed c ++ rest)
          ≡ some c)
      × (deserialize_object_ownership_rejected (serialize_object_ownership_rejected j ++ rest)
          ≡ some j)
unfolding deserialize_object_ownership_request deserialize_object_ownership_changed
    deserialize_object_ownership_rejected
deserialize-serialize_ownership q c j rest vq vc vj fq fc fj = (
  Reads-decode ownership_request_fields rest (Reads-ownership_request q vq) fq,
  Reads-decode ownership_changed_fields rest (Reads-ownership_changed c vc) fc,
  Reads-decode ownership_rejected_fields rest (Reads-ownership_rejected j vj) fj,
)

Stable-ownership_changed : Stable ownership_changed_fields
unfolding ownership_changed_fields
Stable-ownership_changed = search (stable_rules, Stable-begin) depth 24

Ends-ownership_changed : Ends ownership_changed_fields
unfolding ownership_changed_fields
Ends-ownership_changed = search stable_rules depth 24

-- The bytes of an ownership change whose values fit their fields, fewer than 2 ^ 64, are refused if
-- they are cut anywhere before their end.
pub deserialize_object_ownership_changed_cut :
    (m : ObjectOwnershipChangedMessage) (front back : List ℕ) (x : ℕ)
    → IsChanged m
    → serialize_object_ownership_changed m ≡ front ++ (x ∷ back)
    → length (front ++ (x ∷ back)) < 2 ^ 64
    → deserialize_object_ownership_changed front ≡ none
unfolding deserialize_object_ownership_changed
deserialize_object_ownership_changed_cut m front back x v e fits =
    decode-cut ownership_changed_fields front back x m Stable-ownership_changed
      Ends-ownership_changed (Reads-subst (Reads-ownership_changed m v) e refl) fits

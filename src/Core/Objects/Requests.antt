-- ===== src/Core/Objects/Requests.antt =====
-- What request_ownership and release_ownership of src/core/object_sync_manager.cpp send.
use styly_net_sync_godot.Base.{
  ℕ, ◌^◌, ◌<◌, ◌≤◌, ◌≡◌, subst, false, some, [], ◌∷◌, ◌++◌, ◌==◌, length, append-nil, arith,
}
use styly_net_sync_godot.Base.Keys.{nat_key}
use styly_net_sync_godot.Core.Link.{TakesAll, transmit-sent}
use styly_net_sync_godot.Protocol.Ownership.{
  ownership_op_request, ownership_op_release, serialize_object_ownership_request,
  deserialize_object_ownership_request, ObjectOwnershipRequestMessage, ownership_request_fields,
}
use styly_net_sync_godot.Protocol.Ownership.RoundTrip.{IsRequest, Reads-ownership_request}
use styly_net_sync_godot.Base.{length-append}
use styly_net_sync_godot.Wire.Writer.{write_u8, write_u32, write_string8}
use styly_net_sync_godot.Wire.Utf8.{truncate_utf8_bytes}
use styly_net_sync_godot.Wire.Utf8.Truncation.{length-truncate_utf8_bytes}
use styly_net_sync_godot.Wire.Decode.RoundTrip.{Reads-decode}
use styly_net_sync_godot.Core.Objects.{
  ObjectManager, send_ownership_request, request_ownership, release_ownership,
}

length-request :
    (q : ObjectOwnershipRequestMessage)
    → length (serialize_object_ownership_request q ++ []) < 2 ^ 64
unfolding serialize_object_ownership_request write_string8 write_u8 write_u32
length-request q =
    let t = truncate_utf8_bytes q.device_id 255 in
    let last = write_u8 q.operation_type ++ (write_u32 q.object_id ++ []) in
    omega (
      arith,
      length-append (t ++ last) [],
      length-append t last,
      length-truncate_utf8_bytes q.device_id 255,
    )

request_decoded :
    (q : ObjectOwnershipRequestMessage)
    → IsRequest q
    → deserialize_object_ownership_request (serialize_object_ownership_request q) ≡ some q
unfolding deserialize_object_ownership_request
request_decoded q h =
    subst (λ bs. deserialize_object_ownership_request bs ≡ some q)
      (append-nil (serialize_object_ownership_request q))
      (Reads-decode ownership_request_fields [] (Reads-ownership_request q h) (length-request q))

module _ {W : Type 0} where
  -- A request and a release of an object whose id is not 0 and fits 32 bits, by a client whose
  -- device id fits the message, over a transport that takes it, are sent as one message, which the
  -- server's reader takes for what was asked.
  pub ownership-sends :
      (id : ℕ) (m : ObjectManager W)
      → (id == 0) ≡ false
      → id < 2 ^ 32
      → length m.local_device_id ≤ 255
      → TakesAll m.link.answer
      → let asked : ℕ → ObjectOwnershipRequestMessage = λ operation. record {
        device_id = m.local_device_id;
        operation_type = operation;
        object_id = id;
      } in
        let payload = λ (operation : ℕ). serialize_object_ownership_request (asked operation) in
        ((request_ownership id m).1.link.sent ≡ m.link.sent ++ (payload ownership_op_request ∷ []))
        × ((release_ownership id m).1.link.sent
            ≡ m.link.sent ++ (payload ownership_op_release ∷ []))
        × (deserialize_object_ownership_request (payload ownership_op_request)
            ≡ some (asked ownership_op_request))
        × (deserialize_object_ownership_request (payload ownership_op_release)
            ≡ some (asked ownership_op_release))
  unfolding request_ownership release_ownership send_ownership_request
  ownership-sends id m h small short takes = (
    rw h (transmit-sent _ m.link takes),
    rw h (transmit-sent _ m.link takes),
    request_decoded (asked ownership_op_request) (fits ownership_op_request (omega arith)),
    request_decoded (asked ownership_op_release) (fits ownership_op_release (omega arith)),
  )
    where
      asked : ℕ → ObjectOwnershipRequestMessage
      asked operation = record {
        device_id = m.local_device_id;
        operation_type = operation;
        object_id = id;
      }

      fits : (operation : ℕ) → operation < 2 ^ 8 → IsRequest (asked operation)
      fits operation o = record { device = short; operation = o; object = small }

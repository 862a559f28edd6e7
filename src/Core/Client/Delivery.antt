-- ===== src/Core/Client/Delivery.antt =====
-- An RPC from one client to another, from the call of src/core/rpc_manager.cpp to the event of
-- src/core/netsync_client.cpp.
use styly_net_sync_godot.Base.{
  ℕ, ◌^◌, ◌≤◌, ◌<◌, ◌≡◌, refl, ap, ◌∙◌, some, List, [], ◌∷◌, ◌++◌, length, All,
}
use styly_net_sync_godot.Base.Int.{ℤ, pos}
use styly_net_sync_godot.Wire.Writer.{write_u8}
use styly_net_sync_godot.Protocol.Begin.{msg_rpc, peek_message_type}
use styly_net_sync_godot.Protocol.Session.{RpcMessage, serialize_rpc, deserialize_rpc}
use styly_net_sync_godot.Protocol.Session.RoundTrip.{IsRpc, deserialize-serialize_rpc}
use styly_net_sync_godot.Protocol.Pose.Double.{Double}
use styly_net_sync_godot.Core.Link.{client_number, client_number-lt}
use styly_net_sync_godot.Core.Json.{encode_json_string_array}
use styly_net_sync_godot.Core.Json.RoundTrip.{decode-encode_json_string_array}
use styly_net_sync_godot.Core.Rpc.Manager.{rpc_payload}
use styly_net_sync_godot.Core.Client.{Client, rpc_received}
use styly_net_sync_godot.Core.Client.Dispatch.{on_rpc, process_control_payload}

peek-rpc : (m : RpcMessage) (rest : List ℕ) → peek_message_type (serialize_rpc m ++ rest) ≡ msg_rpc
unfolding serialize_rpc peek_message_type write_u8
peek-rpc m rest = refl

module _ {W : Type 0} ⦃d : Double W⦄ where
  process_rpc :
      (format_number : List ℕ → List ℕ) (c : Client W) (payload : List ℕ)
      → peek_message_type payload ≡ msg_rpc
      → process_control_payload format_number payload c
        ≡ on_rpc format_number (deserialize_rpc payload) c
  unfolding process_control_payload
  process_rpc format_number c payload e = rw e refl

  on_rpc-encoded :
      (format_number : List ℕ → List ℕ) (m : RpcMessage) (args : List (List ℕ)) (c : Client W)
      → on_rpc format_number (some (record m { arguments_json = encode_json_string_array args })) c
        ≡ (rpc_received (pos m.sender_client_no) m.function_name args ∷ [], c)
  unfolding on_rpc
  on_rpc-encoded format_number m args c =
      rw (decode-encode_json_string_array format_number args) refl

  -- The payload of an RPC, received by another client with whatever follows it, gives exactly one
  -- event there: the call with its sender, its function name and its arguments, unchanged, and
  -- nothing else changes. The device id and the name take at most 255 bytes, the encoded arguments
  -- at most 65535, there are at most 255 targets, each below 65536, and the bytes are fewer than 2
  -- ^ 64.
  pub process_control_payload-rpc :
      (format_number : List ℕ → List ℕ) (c : Client W) (sender : ℤ) (device_id : List ℕ)
      (targets : List ℕ) (function_name : List ℕ) (args : List (List ℕ)) (rest : List ℕ)
      → length device_id ≤ 255
      → length targets ≤ 255
      → All (λ t. t < 2 ^ 16) targets
      → length function_name ≤ 255
      → length (encode_json_string_array args) ≤ 65535
      → length (rpc_payload sender device_id targets function_name args ++ rest) < 2 ^ 64
      → process_control_payload format_number
          (rpc_payload sender device_id targets function_name args ++ rest)
          c
        ≡ (rpc_received (pos (client_number sender)) function_name args ∷ [], c)
  unfolding rpc_payload
  process_control_payload-rpc format_number c sender device_id targets function_name args rest hd ht
        each hn ha fits =
      let m : RpcMessage = record {
        sender_client_no = client_number sender;
        device_id = device_id;
        target_client_nos = targets;
        function_name = function_name;
        arguments_json = encode_json_string_array args;
      } in
      let valid : IsRpc m = record {
        sender = client_number-lt sender;
        device = hd;
        target_count = ht;
        targets = each;
        name = hn;
        arguments = ha;
      } in
      process_rpc format_number c (serialize_rpc m ++ rest) (peek-rpc m rest)
      ∙ ap (λ o. on_rpc format_number o c) (deserialize-serialize_rpc m rest valid fits)
      ∙ on_rpc-encoded format_number m args c

-- ===== src/Protocol/Begin.antt =====
-- Message types of src/protocol/message_types.hpp, and the start that all deserialisers share.
use styly_net_sync_godot.Base.{
  ℕ, ◌^◌, ◌<◌, refl, Bool, true, false, List, [], ◌∷◌, ◌++◌, arith, ◌==◌, ap, ◌∙◌, append_assoc,
}
use styly_net_sync_godot.Wire.Writer.{write_u8}
use styly_net_sync_godot.Wire.Reader.{read_u8}
use styly_net_sync_godot.Wire.Decode.{Decode, ◌>>=◌, ◌>>◌, field, guard, check_ok}
use styly_net_sync_godot.Wire.Decode.RoundTrip.{
  Reads, Reads-subst, Reads-then', Reads-bind, Reads-then, Reads-guard, Reads-check_ok, Reads-u8,
}
use styly_net_sync_godot.Wire.Decode.Stable.{
  Stable, Stable-bind, Stable-then, Stable-guard, Stable-check_ok, Stable-u8,
}

abbrev pub protocol_version : ℕ
protocol_version = 8

abbrev pub msg_rpc : ℕ
msg_rpc = 3

abbrev pub msg_device_id_mapping : ℕ
msg_device_id_mapping = 6

abbrev pub msg_global_var_set : ℕ
msg_global_var_set = 7

abbrev pub msg_global_var_sync : ℕ
msg_global_var_sync = 8

abbrev pub msg_client_var_set : ℕ
msg_client_var_set = 9

abbrev pub msg_client_var_sync : ℕ
msg_client_var_sync = 10

abbrev pub msg_client_pose : ℕ
msg_client_pose = 11

abbrev pub msg_room_pose : ℕ
msg_room_pose = 12

abbrev pub msg_object_pose : ℕ
msg_object_pose = 13

abbrev pub msg_room_objects : ℕ
msg_room_objects = 14

abbrev pub msg_object_ownership_request : ℕ
msg_object_ownership_request = 15

abbrev pub msg_object_ownership_changed : ℕ
msg_object_ownership_changed = 16

abbrev pub msg_object_ownership_rejected : ℕ
msg_object_ownership_rejected = 17

abbrev pub msg_client_var_clear : ℕ
msg_client_var_clear = 18

abbrev pub msg_client_hello : ℕ
msg_client_hello = 19

-- The message type byte, or 0 when the payload is empty.
unfoldable pub peek_message_type : List ℕ → ℕ
peek_message_type [] = 0
peek_message_type (b ∷ bs) = b

-- Consume the message-type byte and verify it, then optionally the version byte.
unfoldable pub begin_message : ℕ → Bool → Decode (Unit {0})
begin_message expected_type false = do t ← field read_u8; guard (t == expected_type); check_ok
begin_message expected_type true = do
  t ← field read_u8
  guard (t == expected_type)
  v ← field read_u8
  guard (v == protocol_version)
  check_ok

-- A message that begins with its type, or with its type and the version, is read on.
pub Reads-begin {ℓ} :
    {A : Type ℓ} (t : ℕ) {k : Decode A} {bs : List ℕ} {a : A}
    → t < 2 ^ 8
    → Reads k bs a
    → Reads (begin_message t false >> k) (write_u8 t ++ bs) a
unfolding begin_message
Reads-begin t {bs = bs} h hk =
    Reads-subst
      (Reads-then'
        (Reads-bind _ (Reads-u8 t h) (Reads-then (Reads-guard (ground arith)) Reads-check_ok)) hk)
      (append_assoc (write_u8 t) [] bs) refl

pub Reads-begin_version {ℓ} :
    {A : Type ℓ} (t : ℕ) {k : Decode A} {bs : List ℕ} {a : A}
    → t < 2 ^ 8
    → Reads k bs a
    → Reads (begin_message t true >> k) (write_u8 t ++ (write_u8 protocol_version ++ bs)) a
unfolding begin_message
Reads-begin_version t {bs = bs} h hk =
    Reads-subst
      (Reads-then'
        (Reads-bind _ (Reads-u8 t h) (
          Reads-then (Reads-guard (ground arith)) (
            Reads-bind _ (Reads-u8 protocol_version (omega arith))
              (Reads-then (Reads-guard refl) Reads-check_ok))))
        hk)
      (append_assoc (write_u8 t) (write_u8 protocol_version ++ []) bs
        ∙ ap (◌++◌ (write_u8 t)) (append_assoc (write_u8 protocol_version) [] bs))
      refl

pub Stable-begin : (t : ℕ) (has_version : Bool) → Stable (begin_message t has_version)
unfolding begin_message
Stable-begin t false =
    Stable-bind _ _ Stable-u8 (λ a. Stable-then _ _ (Stable-guard (a == t)) Stable-check_ok)
Stable-begin t true = Stable-bind _ _ Stable-u8 (λ a. Stable-then _ _ (Stable-guard (a == t)) (
    Stable-bind _ _ Stable-u8
      (λ v. Stable-then _ _ (Stable-guard (v == protocol_version)) Stable-check_ok)))

-- ===== src/Core/Variables/Names.antt =====
-- Which names and values that NetworkVariableManager accepts survive the wire.
use styly_net_sync_godot.Base.{
  ℕ, ◌^◌, ◌≤◌, ◌<◌, ◌≡◌, ◌≢◌, sym, true, some, List, [], ◌∷◌, arith, inl, inr, length, leb→le,
  append-nil, subst,
}
use styly_net_sync_godot.Wire.Utf8.{code_point_length}
use styly_net_sync_godot.Protocol.Variables.{
  GlobalVarSetMessage, serialize_global_var_set, deserialize_global_var_set,
  max_variable_name_chars,
}
use styly_net_sync_godot.Protocol.Variables.RoundTrip.{
  deserialize-serialize_global_var_set, global_var_set_long_name,
}
use styly_net_sync_godot.Core.Variables.Manager.{
  Manager, validate_name, validate_value, global_payload, set_global,
}
use styly_net_sync_godot.Core.Link.{client_number, client_number-lt}
use styly_net_sync_godot.Core.Variables.Intent.{accepts_global, set_global_outcome}

validate_name-points :
    (name : List ℕ) → validate_name name ≡ true → code_point_length name ≤ max_variable_name_chars
unfolding validate_name
validate_name-points [] h = cc
validate_name-points (b ∷ bs) h = ground arith

abbrev message_of : Manager → List ℕ → List ℕ → GlobalVarSetMessage
message_of m name value = record {
  sender_client_no = client_number m.local_client_no;
  device_id = m.local_device_id;
  variable_name = name;
  variable_value = value;
}

-- What `set_global` sends for a valid name of at most 255 bytes and a valid value of at most 65535
-- bytes is read back with this client's number, its device id, the name and the value, if the
-- device id has at most 255 bytes and the payload fewer than 2 ^ 64.
pub global_payload-survives :
    (m : Manager) (name value : List ℕ)
    → validate_name name ≡ true
    → validate_value value ≡ true
    → length name ≤ 255
    → length value ≤ 65535
    → length m.local_device_id ≤ 255
    → length (global_payload m name value) < 2 ^ 64
    → deserialize_global_var_set (global_payload m name value)
      ≡ some (record {
        sender_client_no = client_number m.local_client_no;
        device_id = m.local_device_id;
        variable_name = name;
        variable_value = value;
      })
unfolding global_payload validate_value
global_payload-survives m name value good_name good_value short short' device fits =
    subst (λ bs. deserialize_global_var_set bs ≡ some (message_of m name value))
      (append-nil (serialize_global_var_set (message_of m name value)))
      (deserialize-serialize_global_var_set (message_of m name value) []
        (record { sender = client_number-lt m.local_client_no; device = device })
        (record {
          name_points = validate_name-points name good_name;
          name_bytes = short;
          value_points = leb→le _ _ good_value;
          value_bytes = short';
        })
        (subst (λ bs. length bs < 2 ^ 64)
          (sym (append-nil (serialize_global_var_set (message_of m name value)))) fits))

accepted :
    (now : ℕ) (name value : List ℕ) (m : Manager)
    → accepts_global name value m ≡ true
    → (set_global now name value m).0 ≡ true
accepted now name value m h = elim (set_global_outcome now name value m) [
  | inl (refused, _) ↦ cc (h, refused)
  | inr (_, ok, _, _) ↦ ok
]

-- A name of more than 255 bytes passes the guards if it has at most 64 code points, and setting it
-- reports success, but what is sent for it is read back under another name, if the device id has at
-- most 255 bytes and the payload fewer than 2 ^ 64.
pub global_payload-renames :
    (now : ℕ) (name value : List ℕ) (m : Manager)
    → accepts_global name value m ≡ true
    → 255 < length name
    → length m.local_device_id ≤ 255
    → length (global_payload m name value) < 2 ^ 64
    → ((set_global now name value m).0 ≡ true)
      × ((m' : GlobalVarSetMessage) × (deserialize_global_var_set (global_payload m name value)
            ≡ some m')
          × (m'.variable_name ≢ name))
unfolding global_payload
global_payload-renames now name value m valid long device fits =
    let (m', reads, other) =
      global_var_set_long_name (message_of m name value) []
        (record { sender = client_number-lt m.local_client_no; device = device }) long
        (subst (λ bs. length bs < 2 ^ 64)
          (sym (append-nil (serialize_global_var_set (message_of m name value)))) fits) in
    (
      accepted now name value m valid,
      (
        m',
        subst (λ bs. deserialize_global_var_set bs ≡ some m')
            (append-nil (serialize_global_var_set (message_of m name value))) reads,
        other,
      ),
    )

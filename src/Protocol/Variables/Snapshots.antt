-- ===== src/Protocol/Variables/Snapshots.antt =====
-- The snapshots of network variables in src/protocol/protocol_v8.cpp, read back.
use styly_net_sync_godot.Base.{
  ℕ, ◌%◌, ◌^◌, ◌<◌, ◌≡◌, refl, none, some, List, ◌∷◌, ◌++◌, arith, length, All,
}
use styly_net_sync_godot.Wire.Decode.RoundTrip.{
  Reads, Reads-subst, Reads-bind, Reads-then, Reads-pure, Reads-check_ok, Reads-u16, Reads-repeat,
  Reads-decode,
}
use styly_net_sync_godot.Wire.Decode.Stable.{Stable, Ends, decode-cut, stable_rules}
use styly_net_sync_godot.Protocol.Begin.{
  msg_global_var_sync, msg_client_var_sync, Reads-begin, Stable-begin,
}
use styly_net_sync_godot.Protocol.Variables.{
  NetworkVariableEntry, write_entry, entry_fields, GlobalVarSyncMessage, serialize_global_var_sync,
  global_var_sync_fields, deserialize_global_var_sync, ClientVarSyncMessage, write_snapshot,
  serialize_client_var_sync, snapshot_fields, client_var_sync_fields, deserialize_client_var_sync,
}
use styly_net_sync_godot.Protocol.Variables.RoundTrip.{
  IsShort, wire_name_short, wire_value_short, Reads-name, Reads-value,
}

pub record IsEntry (entry : NetworkVariableEntry) : Type 0 where
  pub short : IsShort entry.name entry.value
  pub writer : entry.last_writer_client_no < 2 ^ 16

Reads-entry :
    (entry : NetworkVariableEntry) → IsEntry entry → Reads entry_fields (write_entry entry) entry
unfolding entry_fields write_entry
Reads-entry entry v =
    Reads-bind _
      (Reads-subst (Reads-name entry.name) refl
        (wire_name_short entry.name v.short.name_points v.short.name_bytes))
      (Reads-bind _
        (Reads-subst (Reads-value entry.value) refl
          (wire_value_short entry.value v.short.value_points v.short.value_bytes))
        (Reads-bind _ (Reads-u16 entry.last_writer_client_no v.writer)
          (Reads-then Reads-check_ok (Reads-pure entry))))

pub record IsGlobalSync (m : GlobalVarSyncMessage) : Type 0 where
  pub count : length m.variables < 2 ^ 16
  pub entries : All IsEntry m.variables

Reads-global_var_sync :
    (m : GlobalVarSyncMessage)
    → IsGlobalSync m
    → Reads global_var_sync_fields (serialize_global_var_sync m) m
unfolding global_var_sync_fields serialize_global_var_sync
Reads-global_var_sync m v =
    let count : length m.variables % 2 ^ 16 ≡ length m.variables = omega (arith, v.count) in
    rw count (
      Reads-begin msg_global_var_sync (omega arith) (
        Reads-bind _ (Reads-u16 (length m.variables) v.count) (
          Reads-then Reads-check_ok (
            Reads-bind _
              (Reads-repeat entry_fields write_entry IsEntry m.variables Reads-entry v.entries)
              (Reads-then Reads-check_ok (Reads-pure m))))))

-- A snapshot of the global variables is read back as it was written, whatever follows it, if it has
-- fewer than 65536 entries whose texts are within their limits and all of it has fewer than 2 ^ 64
-- bytes.
pub deserialize-serialize_global_var_sync :
    (m : GlobalVarSyncMessage) (rest : List ℕ)
    → IsGlobalSync m
    → length (serialize_global_var_sync m ++ rest) < 2 ^ 64
    → deserialize_global_var_sync (serialize_global_var_sync m ++ rest) ≡ some m
unfolding deserialize_global_var_sync
deserialize-serialize_global_var_sync m rest v fits =
    Reads-decode global_var_sync_fields rest (Reads-global_var_sync m v) fits

abbrev IsSnapshot : ℕ × List NetworkVariableEntry → Type 0
IsSnapshot s = (s.0 < 2 ^ 16) × (length s.1 < 2 ^ 16) × All IsEntry s.1

pub record IsClientSync (m : ClientVarSyncMessage) : Type 0 where
  pub count : length m.clients < 2 ^ 16
  pub snapshots : All IsSnapshot m.clients

Reads-snapshot :
    (s : ℕ × List NetworkVariableEntry) → IsSnapshot s → Reads snapshot_fields (write_snapshot s) s
unfolding snapshot_fields write_snapshot
Reads-snapshot (client_no, entries) (number, small, valid) =
    let count : length entries % 2 ^ 16 ≡ length entries = omega (arith, small) in
    rw count (
      Reads-bind _ (Reads-u16 client_no number) (
        Reads-bind _ (Reads-u16 (length entries) small) (
          Reads-then Reads-check_ok (
            Reads-bind _ (Reads-repeat entry_fields write_entry IsEntry entries Reads-entry valid)
              (Reads-pure (client_no, entries))))))

Reads-client_var_sync :
    (m : ClientVarSyncMessage)
    → IsClientSync m
    → Reads client_var_sync_fields (serialize_client_var_sync m) m
unfolding client_var_sync_fields serialize_client_var_sync
Reads-client_var_sync m v =
    let count : length m.clients % 2 ^ 16 ≡ length m.clients = omega (arith, v.count) in
    rw count (
      Reads-begin msg_client_var_sync (omega arith) (
        Reads-bind _ (Reads-u16 (length m.clients) v.count) (
          Reads-then Reads-check_ok (
            Reads-bind _
              (Reads-repeat snapshot_fields write_snapshot IsSnapshot m.clients Reads-snapshot
                v.snapshots)
              (Reads-then Reads-check_ok (Reads-pure m))))))

-- The snapshots of the client variables are read back as they were written, whatever follows them,
-- if there are fewer than 65536 clients, each with a 16-bit number and fewer than 65536 entries
-- whose texts are within their limits, and all of it has fewer than 2 ^ 64 bytes.
pub deserialize-serialize_client_var_sync :
    (m : ClientVarSyncMessage) (rest : List ℕ)
    → IsClientSync m
    → length (serialize_client_var_sync m ++ rest) < 2 ^ 64
    → deserialize_client_var_sync (serialize_client_var_sync m ++ rest) ≡ some m
unfolding deserialize_client_var_sync
deserialize-serialize_client_var_sync m rest v fits =
    Reads-decode client_var_sync_fields rest (Reads-client_var_sync m v) fits

Stable-entry : Stable entry_fields
unfolding entry_fields
Stable-entry = search stable_rules depth 24

Stable-snapshot : Stable snapshot_fields
unfolding snapshot_fields
Stable-snapshot = search (stable_rules, Stable-entry) depth 24

Stable-client_var_sync : Stable client_var_sync_fields
unfolding client_var_sync_fields
Stable-client_var_sync = search (stable_rules, Stable-begin, Stable-snapshot) depth 24

Ends-client_var_sync : Ends client_var_sync_fields
unfolding client_var_sync_fields
Ends-client_var_sync = search stable_rules depth 24

-- The bytes of snapshots of client variables whose values fit their fields, fewer than 2 ^ 64, are
-- refused if they are cut anywhere before their end.
pub deserialize_client_var_sync_cut :
    (m : ClientVarSyncMessage) (front back : List ℕ) (x : ℕ)
    → IsClientSync m
    → serialize_client_var_sync m ≡ front ++ (x ∷ back)
    → length (front ++ (x ∷ back)) < 2 ^ 64
    → deserialize_client_var_sync front ≡ none
unfolding deserialize_client_var_sync
deserialize_client_var_sync_cut m front back x v e fits =
    decode-cut client_var_sync_fields front back x m Stable-client_var_sync Ends-client_var_sync
      (Reads-subst (Reads-client_var_sync m v) e refl) fits

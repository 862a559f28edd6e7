-- ===== src/Core/Variables/Sync.antt =====
-- The incoming snapshots of NetworkVariableManager in src/core/network_variable_manager.cpp.
use styly_net_sync_godot.Base.{
  ℕ, Bool, true, false, ◌||◌, Option, none, some, List, [], ◌∷◌, ◌++◌, if◌then◌else◌,
}
use styly_net_sync_godot.Base.Int.{ℤ, pos}
use styly_net_sync_godot.Base.Keys.{Key, bytes_eq, int_key, bytes_key, pair_key}
use styly_net_sync_godot.Base.Dict.{lookup, has, insert, erase}
use styly_net_sync_godot.Protocol.Variables.{
  NetworkVariableEntry, GlobalVarSyncMessage, ClientVarSyncMessage,
}
use styly_net_sync_godot.Core.Variables.Lane.{Lane, holds, forget_pending}
use styly_net_sync_godot.Core.Variables.Manager.{
  Manager, Values, VariableChange, ClientKey, or_empty,
}

abbrev pub is_empty : List ℕ → Bool
is_empty [] = true
is_empty (b ∷ bs) = false

module _ {ℓ} {K : Type ℓ} ⦃e : Key K⦄ where
  -- Drop the redundant trailing copy of our own last send.
  abbrev pub drop_copy : K → List ℕ → Lane K → Lane K
  drop_copy key sent lane =
      if holds (lookup key lane.pending) sent then forget_pending key lane else lane

  abbrev pub erase_sent : K → Lane K → Lane K
  erase_sent key lane = record lane { last_sent = erase key lane.last_sent }

  -- Reconcile the send side with the authoritative value of a global variable.
  abbrev pub reconcile_with : K → List ℕ → Option (List ℕ) → Lane K → Lane K
  reconcile_with key value none lane = lane
  reconcile_with key value (some sent) lane =
      let lane' = drop_copy key sent lane in
      if bytes_eq sent value then lane' else erase_sent key lane'

  unfoldable pub reconcile : K → List ℕ → Lane K → Lane K
  reconcile key value lane = reconcile_with key value (lookup key lane.last_sent) lane

  -- A client variable that is gone from the snapshot.
  abbrev pub retire_with : K → Option (List ℕ) → Lane K → Lane K
  retire_with key none lane = lane
  retire_with key (some sent) lane = erase_sent key (drop_copy key sent lane)

  unfoldable pub retire : K → Lane K → Lane K
  retire key lane = retire_with key (lookup key lane.last_sent) lane

  -- A client variable that the snapshot has.
  unfoldable pub confirm : K → List ℕ → Lane K → Lane K
  confirm key value lane =
      drop_copy key value (record lane { last_sent = insert key value lane.last_sent })

-- What was there before, and whether it was.
abbrev pub old_text : Option (List ℕ) → List ℕ
old_text none = []
old_text (some old) = old

abbrev pub was_there : Option (List ℕ) → Bool
was_there none = false
was_there (some old) = true

abbrev pub change_of : ℤ → List ℕ → Option (List ℕ) → List ℕ → VariableChange
change_of client_no name old value = record {
  client_no = client_no;
  name = name;
  old_value = old_text old;
  new_value = value;
  had_old_value = was_there old;
  removed = false;
}

-- The loop of handle_global_sync over the entries.
unfoldable pub global_entries :
    List NetworkVariableEntry
    → Values
    → Lane (List ℕ)
    → Values × Lane (List ℕ) × List VariableChange
global_entries [] globals lane = (globals, lane, [])
global_entries (entry ∷ rest) globals lane =
    let existing = lookup entry.name globals in
    let same = is_empty entry.name || holds existing entry.value in
    let lane' = if is_empty entry.name then lane else reconcile entry.name entry.value lane in
    let globals' = if same then globals else insert entry.name entry.value globals in
    let change = if same then [] else change_of (pos 0) entry.name existing entry.value ∷ [] in
    let (globals'', lane'', changes) = global_entries rest globals' lane' in
    (globals'', lane'', change ++ changes)

-- The changes are what is appended to the caller's list.
unfoldable pub handle_global_sync : GlobalVarSyncMessage → Manager → Manager × List VariableChange
handle_global_sync message m =
    let (globals, lane, changes) = global_entries message.variables m.globals m.global_lane in
    (record m { has_received_initial_sync = true; globals = globals; global_lane = lane }, changes)

-- `next` of handle_client_sync.
unfoldable pub snapshot_of : List NetworkVariableEntry → Values → Values
snapshot_of [] next = next
snapshot_of (entry ∷ rest) next =
    snapshot_of rest (if is_empty entry.name then next else insert entry.name entry.value next)

unfoldable pub removed_entries :
    ℤ → Values → Values → Lane ClientKey → Lane ClientKey × List VariableChange
removed_entries client_no next [] lane = (lane, [])
removed_entries client_no next ((name, value) ∷ old) lane =
    let kept = has name next in
    let lane' = if kept then lane else retire (client_no, name) lane in
    let change =
      if kept
      then []
      else record {
        client_no = client_no;
        name = name;
        old_value = value;
        new_value = [];
        had_old_value = true;
        removed = true;
      }
        ∷ [] in
    let (lane'', changes) = removed_entries client_no next old lane' in (lane'', change ++ changes)

unfoldable pub present_entries :
    ℤ → Values → Values → Lane ClientKey → Lane ClientKey × List VariableChange
present_entries client_no old [] lane = (lane, [])
present_entries client_no old ((name, value) ∷ next) lane =
    let (lane', changes) =
      present_entries client_no old next (confirm (client_no, name) value lane) in
    let change =
      if holds (lookup name old) value
      then []
      else change_of client_no name (lookup name old) value ∷ [] in
    (lane', change ++ changes)

-- One client's snapshot.
unfoldable pub client_snapshot :
    ℕ × List NetworkVariableEntry → Manager → Manager × List VariableChange
client_snapshot (number, entries) m =
    let next = snapshot_of entries [] in
    let old = or_empty (lookup (pos number) m.client_variables) in
    let (lane, removals) = removed_entries (pos number) next old m.client_lane in
    let (lane', changes) = present_entries (pos number) old next lane in
    (
      record m {
        client_variables = insert (pos number) next m.client_variables;
        client_lane = lane';
      },
      removals ++ changes,
    )

unfoldable pub client_snapshots :
    List (ℕ × List NetworkVariableEntry) → Manager → Manager × List VariableChange
client_snapshots [] m = (m, [])
client_snapshots (snapshot ∷ rest) m =
    let (m', changes) = client_snapshot snapshot m in
    let (m'', more) = client_snapshots rest m' in (m'', changes ++ more)

unfoldable pub handle_client_sync : ClientVarSyncMessage → Manager → Manager × List VariableChange
handle_client_sync message m =
    client_snapshots message.clients (record m { has_received_initial_sync = true })

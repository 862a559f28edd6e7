-- ===== src/Core/Variables/Globals.antt =====
-- What an incoming snapshot of src/core/network_variable_manager.cpp leaves in the global table.
use styly_net_sync_godot.Base.{
  ℕ, ◌≡◌, refl, subst, ◌∙◌, inl, inr, Bool, true, false, not, ◌&&◌, ◌||◌, Option, none, some, [],
  ◌∷◌, if◌then◌else◌, Bool-cases, ◌≢◌, List,
}
use mathlib.Core.Option.{some-injective}
use styly_net_sync_godot.Base.Int.{pos}
use styly_net_sync_godot.Base.Keys.{int_key, bytes_key, pair_key, bytes_eq, bytes_eq_iff}
use styly_net_sync_godot.Base.Dict.{lookup, insert, lookup-insert}
use styly_net_sync_godot.Protocol.Variables.{NetworkVariableEntry, GlobalVarSyncMessage}
use styly_net_sync_godot.Core.Variables.Lane.{Lane, holds}
use styly_net_sync_godot.Core.Variables.Lane.Delivery.{newer, holds→eq}
use styly_net_sync_godot.Core.Variables.Manager.{Manager, Values, VariableChange, get_global}
use styly_net_sync_godot.Core.Variables.Sync.{
  is_empty, change_of, global_entries, handle_global_sync,
}
use styly_net_sync_godot.Core.Variables.Snapshots.{latest, newer_step}

-- The changes that are reported, applied to a table.
pub replay : List VariableChange → Values → Values
replay [] table = table
replay (change ∷ rest) table = replay rest (insert change.name change.new_value table)

-- What a change says of the value before it.
abbrev pub TellsOld : Option (List ℕ) → VariableChange → Type 0
TellsOld none change = (change.had_old_value ≡ false) × (change.old_value ≡ [])
TellsOld (some old) change = (change.had_old_value ≡ true) × (change.old_value ≡ old)

-- Every change is one to a global variable with a name, it gives its name another value than the
-- table at its turn, and tells truly what the table has.
abbrev pub Faithful : List VariableChange → Values → Type 0
Faithful [] table = Unit
Faithful (change ∷ rest) table =
    (change.client_no ≡ pos 0)
    × (change.removed ≡ false)
    × (is_empty change.name ≡ false)
    × (lookup change.name table ≢ some change.new_value)
    × TellsOld (lookup change.name table) change
    × Faithful rest (insert change.name change.new_value table)

or_false : (a b : Bool) → (a || b) ≡ false → (a ≡ false) × (b ≡ false)
or_false true b h = cc
or_false false b h = (refl, h)

eq→holds : (o : Option (List ℕ)) (value : List ℕ) → o ≡ some value → holds o value ≡ true
eq→holds none value h = cc
eq→holds (some v) value h = (bytes_eq_iff v value).1 (some-injective _ _ h)

change_of-TellsOld :
    (name value : List ℕ) (old : Option (List ℕ)) → TellsOld old (change_of (pos 0) name old value)
change_of-TellsOld name value none = (refl, refl)
change_of-TellsOld name value (some old) = (refl, refl)

global_entries-replay :
    (entries : List NetworkVariableEntry) (globals : Values) (lane : Lane (List ℕ))
    → (replay (global_entries entries globals lane).2 globals
        ≡ (global_entries entries globals lane).0)
      × Faithful (global_entries entries globals lane).2 globals
unfolding global_entries replay
global_entries-replay [] globals lane = (refl, tt)
global_entries-replay (entry ∷ rest) globals lane =
    let found = lookup entry.name globals in
    elim (Bool-cases (is_empty entry.name || holds found entry.value)) [
      | inl same ↦ rw same (global_entries-replay rest globals _)
      | inr new ↦
          let (named, other) = or_false (is_empty entry.name) (holds found entry.value) new in
          let ih = global_entries-replay rest (insert entry.name entry.value globals) _ in
          rw new (
            ih.0,
            (
              refl,
              refl,
              named,
              (λ is. cc (eq→holds found entry.value is, other)),
              change_of-TellsOld entry.name entry.value found,
              ih.1,
            ),
          )
    ]

-- A stored entry is seen under its own name; an entry that is the same or has no name is not
-- stored.
stored_global :
    (name : List ℕ) (entry : NetworkVariableEntry) (globals : Values)
    → lookup name (
        if is_empty entry.name || holds (lookup entry.name globals) entry.value
        then globals
        else insert entry.name entry.value globals)
      ≡ (if not (is_empty entry.name) && bytes_eq entry.name name
          then some entry.value
          else lookup name globals)
stored_global name entry globals = elim (Bool-cases (is_empty entry.name)) [
  | inl nameless ↦ rw nameless
  | inr named ↦ rw named (elim (Bool-cases (holds (lookup entry.name globals) entry.value)) [
    | inr new ↦ rw new (lookup-insert entry.name name entry.value globals)
    | inl same ↦ rw same (elim (Bool-cases (bytes_eq entry.name name)) [
      | inr other ↦ rw other
      | inl here ↦ rw here (
          subst (λ n. lookup n globals ≡ some entry.value) ((bytes_eq_iff entry.name name).0 here)
            (holds→eq _ _ same))
    ])
  ])
]

lookup-global_entries :
    (name : List ℕ) (entries : List NetworkVariableEntry) (globals : Values) (lane : Lane (List ℕ))
    → lookup name (global_entries entries globals lane).0
      ≡ newer (latest name entries) (lookup name globals)
unfolding global_entries latest
lookup-global_entries name [] globals lane = refl
lookup-global_entries name (entry ∷ rest) globals lane =
    lookup-global_entries name rest _ _
    ∙ newer_step (latest name rest) (not (is_empty entry.name) && bytes_eq entry.name name)
        entry.value (lookup name globals) _ (stored_global name entry globals)

-- After a snapshot of the global variables is handled, a name has the last value that it has there,
-- or else the value that it had.
pub get_global-handle_global_sync :
    (name : List ℕ) (message : GlobalVarSyncMessage) (m : Manager)
    → get_global name (handle_global_sync message m).0
      ≡ newer (latest name message.variables) (get_global name m)
unfolding get_global handle_global_sync
get_global-handle_global_sync name message m =
    lookup-global_entries name message.variables m.globals m.global_lane

-- The changes that handling a snapshot of the global variables reports, applied to the old table in
-- their order, give the new table, and each is faithful to the table at its turn: it is a change of
-- a global variable with a name, to a value that the table does not have for it, and it says
-- whether the table has a value for the name, and which.
pub handle_global_sync-replay :
    (message : GlobalVarSyncMessage) (m : Manager)
    → (replay (handle_global_sync message m).1 m.globals ≡ (handle_global_sync message m).0.globals)
      × Faithful (handle_global_sync message m).1 m.globals
unfolding handle_global_sync
handle_global_sync-replay message m =
    global_entries-replay message.variables m.globals m.global_lane

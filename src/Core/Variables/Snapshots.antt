-- ===== src/Core/Variables/Snapshots.antt =====
-- What an incoming snapshot of src/core/network_variable_manager.cpp leaves in the tables.
use styly_net_sync_godot.Base.{
  ℕ, ◌≡◌, refl, ap, ◌∙◌, inl, inr, Bool, true, false, not, ◌&&◌, Option, none, some, List, [], ◌∷◌,
  if◌then◌else◌, Bool-cases,
}
use styly_net_sync_godot.Base.Int.{ℤ, pos, eq_ℤ}
use styly_net_sync_godot.Base.Keys.{int_key, bytes_key, pair_key, bytes_eq}
use styly_net_sync_godot.Base.Dict.{lookup, insert, lookup-insert}
use styly_net_sync_godot.Protocol.Variables.{NetworkVariableEntry, ClientVarSyncMessage}
use styly_net_sync_godot.Core.Variables.Lane.Delivery.{newer}
use styly_net_sync_godot.Core.Variables.Manager.{Manager, Values, get_client}
use styly_net_sync_godot.Core.Variables.Sync.{
  is_empty, snapshot_of, client_snapshot, client_snapshots, handle_client_sync,
}

-- The value of the last entry under a name; entries with no name do not count.
unfoldable pub latest : List ℕ → List NetworkVariableEntry → Option (List ℕ)
latest name [] = none
latest name (entry ∷ rest) =
    newer (latest name rest)
      (if not (is_empty entry.name) && bytes_eq entry.name name then some entry.value else none)

-- One entry, stored and then overlaid by the later ones.
pub newer_step :
    (later : Option (List ℕ)) (this : Bool) (value : List ℕ) (before stored : Option (List ℕ))
    → stored ≡ (if this then some value else before)
    → newer later stored ≡ newer (newer later (if this then some value else none)) before
newer_step none true value before stored h = h
newer_step none false value before stored h = h
newer_step (some v) this value before stored h = refl

-- A stored entry is seen under its own name, and an entry that is not stored changes nothing.
stored_entry :
    (name : List ℕ) (entry : NetworkVariableEntry) (next : Values)
    → lookup name (if is_empty entry.name then next else insert entry.name entry.value next) ≡ (
        if not (is_empty entry.name) && bytes_eq entry.name name
        then some entry.value
        else lookup name next)
stored_entry name entry next = elim (Bool-cases (is_empty entry.name)) [
  | inl nameless ↦ rw nameless
  | inr named ↦ rw named (lookup-insert entry.name name entry.value next)
]

pub lookup-snapshot_of :
    (name : List ℕ) (entries : List NetworkVariableEntry) (next : Values)
    → lookup name (snapshot_of entries next) ≡ newer (latest name entries) (lookup name next)
unfolding snapshot_of latest
lookup-snapshot_of name [] next = refl
lookup-snapshot_of name (entry ∷ rest) next =
    lookup-snapshot_of name rest _
    ∙ newer_step (latest name rest) (not (is_empty entry.name) && bytes_eq entry.name name)
        entry.value (lookup name next) _ (stored_entry name entry next)

-- The entries of the last snapshot of a client in a message.
unfoldable pub latest_snapshot :
    ℤ → List (ℕ × List NetworkVariableEntry) → Option (List NetworkVariableEntry)
latest_snapshot c [] = none
latest_snapshot c ((number, entries) ∷ rest) =
    let later = latest_snapshot c rest in
    elim later [ some es ↦ some es | none ↦ if eq_ℤ (pos number) c then some entries else none ]

abbrev pub seen : List ℕ → Option (List ℕ) → Option (List NetworkVariableEntry) → Option (List ℕ)
seen name before none = before
seen name before (some entries) = latest name entries

newer-none : (o : Option (List ℕ)) → newer o none ≡ o
newer-none none = refl
newer-none (some v) = refl

snapshot_latest :
    (name : List ℕ) (entries : List NetworkVariableEntry)
    → lookup name (snapshot_of entries []) ≡ latest name entries
unfolding lookup
snapshot_latest name entries = lookup-snapshot_of name entries [] ∙ newer-none (latest name entries)

get_client-client_snapshot :
    (c : ℤ) (name : List ℕ) (number : ℕ) (entries : List NetworkVariableEntry) (m : Manager)
    → get_client c name (client_snapshot (number, entries) m).0
      ≡ (if eq_ℤ (pos number) c then latest name entries else get_client c name m)
unfolding get_client client_snapshot
get_client-client_snapshot c name number entries m = elim (Bool-cases (eq_ℤ (pos number) c)) [
  | inl same ↦
      rw (lookup-insert (pos number) c (snapshot_of entries []) m.client_variables, same)
        (snapshot_latest name entries)
  | inr other ↦ rw (lookup-insert (pos number) c (snapshot_of entries []) m.client_variables, other)
]

seen_step :
    (c : ℤ) (name : List ℕ) (number : ℕ) (entries : List NetworkVariableEntry)
    (later : Option (List NetworkVariableEntry)) (before : Option (List ℕ))
    → seen name (if eq_ℤ (pos number) c then latest name entries else before) later
      ≡ seen name before (elim later [
        | some es ↦ some es
        | none ↦ if eq_ℤ (pos number) c then some entries else none
      ])
seen_step c name number entries none before = elim (Bool-cases (eq_ℤ (pos number) c)) [
  | inl same ↦ rw same
  | inr other ↦ rw other
]
seen_step c name number entries (some es) before = refl

get_client-client_snapshots :
    (c : ℤ) (name : List ℕ) (clients : List (ℕ × List NetworkVariableEntry)) (m : Manager)
    → get_client c name (client_snapshots clients m).0
      ≡ seen name (get_client c name m) (latest_snapshot c clients)
unfolding client_snapshots latest_snapshot
get_client-client_snapshots c name [] m = refl
get_client-client_snapshots c name ((number, entries) ∷ rest) m =
    get_client-client_snapshots c name rest (client_snapshot (number, entries) m).0
    ∙ ap (λ o. seen name o (latest_snapshot c rest))
        (get_client-client_snapshot c name number entries m)
    ∙ seen_step c name number entries (latest_snapshot c rest) (get_client c name m)

same_client :
    (c : ℤ) (name : List ℕ) (m : Manager)
    → get_client c name (record m { has_received_initial_sync = true }) ≡ get_client c name m
unfolding get_client
same_client c name m = refl

-- After the snapshots of client variables are handled, a client has exactly the variables of its
-- last snapshot in the message, each with the last value there, and a client without a snapshot has
-- what it had.
pub get_client-handle_client_sync :
    (c : ℤ) (name : List ℕ) (message : ClientVarSyncMessage) (m : Manager)
    → get_client c name (handle_client_sync message m).0
      ≡ seen name (get_client c name m) (latest_snapshot c message.clients)
unfolding handle_client_sync
get_client-handle_client_sync c name message m =
    get_client-client_snapshots c name message.clients
      (record m { has_received_initial_sync = true })
    ∙ ap (λ o. seen name o (latest_snapshot c message.clients)) (same_client c name m)

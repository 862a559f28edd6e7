-- ===== src/Core/Variables/Incoming.antt =====
-- The incoming snapshots of src/core/network_variable_manager.cpp keep a deadline with each pending
-- value.
use styly_net_sync_godot.Base.{
  ℕ, ◌≡◌, inl, inr, false, Option, none, some, List, [], ◌∷◌, arith, if◌then◌else◌, Bool-cases,
  if_cases,
}
use styly_net_sync_godot.Base.Int.{ℤ, pos, eq_ℤ, eq_ℤ_iff}
use styly_net_sync_godot.Base.Keys.{Key, int_key, bytes_key, pair_key, bytes_eq}
use styly_net_sync_godot.Base.Dict.{Dict, lookup, has, insert}
use styly_net_sync_godot.Protocol.Variables.{NetworkVariableEntry}
use styly_net_sync_godot.Core.Variables.Lane.{Lane, holds}
use styly_net_sync_godot.Core.Variables.Lane.Paired.{Paired, forget_pending-Paired}
use styly_net_sync_godot.Core.Variables.Manager.{
  Manager, Values, ClientKey, erase_client, clear_pending_for_client,
}
use styly_net_sync_godot.Core.Variables.Sync.{
  is_empty, drop_copy, reconcile_with, reconcile, retire_with, retire, confirm, global_entries,
  removed_entries, present_entries, client_snapshot, snapshot_of, client_snapshots,
}

pub record IsPaired (m : Manager) : Type 0 where
  pub global : Paired m.global_lane
  pub client : Paired m.client_lane

has-erase_client :
    {V : Type 0} (c b : ℤ) (t : List ℕ) (m : Dict ClientKey V)
    → has (b, t) (erase_client c m) ≡ (if eq_ℤ b c then false else has (b, t) m)
unfolding has erase_client
has-erase_client c b t [] = ground arith
has-erase_client c b t (((a, s), v) ∷ m) =
    ground (arith, eq_ℤ_iff a c, eq_ℤ_iff b c, eq_ℤ_iff a b, has-erase_client c b t m)

pub clear_pending_for_client-Paired :
    (c : ℤ) (lane : Lane ClientKey) → Paired lane → Paired (clear_pending_for_client c lane)
unfolding clear_pending_for_client
clear_pending_for_client-Paired c lane p (b, t) =
    rw (has-erase_client c b t lane.pending, has-erase_client c b t lane.due, p (b, t))

module _ {ℓ} {K : Type ℓ} ⦃e : Key K⦄ where
  drop_copy-Paired :
      (key : K) (sent : List ℕ) (lane : Lane K) → Paired lane → Paired (drop_copy key sent lane)
  drop_copy-Paired key sent lane p = elim (Bool-cases (holds (lookup key lane.pending) sent)) [
    | inl copy ↦ rw copy (forget_pending-Paired key lane p)
    | inr other ↦ rw other p
  ]

  reconcile_with-Paired :
      (key : K) (value : List ℕ) (o : Option (List ℕ)) (lane : Lane K)
      → Paired lane
      → Paired (reconcile_with key value o lane)
  reconcile_with-Paired key value none lane p = p
  reconcile_with-Paired key value (some sent) lane p = elim (Bool-cases (bytes_eq sent value)) [
    | inl same ↦ rw same (drop_copy-Paired key sent lane p)
    | inr other ↦ rw other (drop_copy-Paired key sent lane p)
  ]

  reconcile-Paired :
      (key : K) (value : List ℕ) (lane : Lane K) → Paired lane → Paired (reconcile key value lane)
  unfolding reconcile
  reconcile-Paired key value lane p =
      reconcile_with-Paired key value (lookup key lane.last_sent) lane p

  retire_with-Paired :
      (key : K) (o : Option (List ℕ)) (lane : Lane K)
      → Paired lane
      → Paired (retire_with key o lane)
  retire_with-Paired key none lane p = p
  retire_with-Paired key (some sent) lane p = drop_copy-Paired key sent lane p

  retire-Paired : (key : K) (lane : Lane K) → Paired lane → Paired (retire key lane)
  unfolding retire
  retire-Paired key lane p = retire_with-Paired key (lookup key lane.last_sent) lane p

  confirm-Paired :
      (key : K) (value : List ℕ) (lane : Lane K) → Paired lane → Paired (confirm key value lane)
  unfolding confirm
  confirm-Paired key value lane p =
      drop_copy-Paired key value (record lane { last_sent = insert key value lane.last_sent }) p

pub global_entries-Paired :
    (entries : List NetworkVariableEntry) (globals : Values) (lane : Lane (List ℕ))
    → Paired lane
    → Paired (global_entries entries globals lane).1
unfolding global_entries
global_entries-Paired [] globals lane p = p
global_entries-Paired (entry ∷ rest) globals lane p =
    global_entries-Paired rest _ _
      (if_cases Paired (is_empty entry.name) p (reconcile-Paired entry.name entry.value lane p))

removed_entries-Paired :
    (client_no : ℤ) (next old : Values) (lane : Lane ClientKey)
    → Paired lane
    → Paired (removed_entries client_no next old lane).0
unfolding removed_entries
removed_entries-Paired client_no next [] lane p = p
removed_entries-Paired client_no next ((name, value) ∷ old) lane p =
    removed_entries-Paired client_no next old _
      (if_cases Paired (has name next) p (retire-Paired (client_no, name) lane p))

present_entries-Paired :
    (client_no : ℤ) (old next : Values) (lane : Lane ClientKey)
    → Paired lane
    → Paired (present_entries client_no old next lane).0
unfolding present_entries
present_entries-Paired client_no old [] lane p = p
present_entries-Paired client_no old ((name, value) ∷ next) lane p =
    present_entries-Paired client_no old next _ (confirm-Paired (client_no, name) value lane p)

client_snapshot-IsPaired :
    (s : ℕ × List NetworkVariableEntry) (m : Manager)
    → IsPaired m
    → IsPaired (client_snapshot s m).0
unfolding client_snapshot
client_snapshot-IsPaired (number, entries) m v = record {
  global = v.global;
  client =
      present_entries-Paired (pos number) _ (snapshot_of entries []) _
        (removed_entries-Paired (pos number) (snapshot_of entries []) _ m.client_lane v.client);
}

pub client_snapshots-IsPaired :
    (ss : List (ℕ × List NetworkVariableEntry)) (m : Manager)
    → IsPaired m
    → IsPaired (client_snapshots ss m).0
unfolding client_snapshots
client_snapshots-IsPaired [] m v = v
client_snapshots-IsPaired (s ∷ ss) m v =
    client_snapshots-IsPaired ss _ (client_snapshot-IsPaired s m v)

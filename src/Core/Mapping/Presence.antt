-- ===== src/Core/Mapping/Presence.antt =====
-- The presence of clients by update_presence in src/core/device_mapping.cpp.
use styly_net_sync_godot.Base.{
  ◌≡◌, refl, ap, arith, Bool, true, false, not, ◌&&◌, ◌||◌, List, [], ◌∷◌, if◌then◌else◌,
  Bool-cases, inl, inr,
}
use styly_net_sync_godot.Base.Int.{ℤ, eq_ℤ, eq_ℤ_iff}
use styly_net_sync_godot.Base.Keys.{int_key}
use styly_net_sync_godot.Base.Dict.{Dict, has, insert, has-insert, has-erase}
use styly_net_sync_godot.Core.Mapping.{
  DeviceMapping, Members, members_of, announce, keep_alive, gone_from, update_presence,
}

abbrev pub occurs : ℤ → List ℤ → Bool
occurs c [] = false
occurs c (d ∷ ds) = if eq_ℤ d c then true else occurs c ds

members_of-has :
    (c : ℤ) (cs : List ℤ) (set : Members) → has c (members_of cs set) ≡ (occurs c cs || has c set)
unfolding members_of
members_of-has c [] set = refl
members_of-has c (d ∷ cs) set =
    ground (arith, members_of-has c cs (insert d tt set), has-insert d c tt set)

keep_alive-has :
    (c : ℤ) (alive set : Members) → has c (keep_alive alive set) ≡ (has c set && has c alive)
unfolding keep_alive has
keep_alive-has c alive [] = refl
keep_alive-has c alive ((d, u) ∷ set) = ground (arith, keep_alive-has c alive set, eq_ℤ_iff d c)

gone_from-occurs :
    (c : ℤ) (alive set : Members)
    → occurs c (gone_from alive set) ≡ (has c set && not (has c alive))
unfolding gone_from has
gone_from-occurs c alive [] = refl
gone_from-occurs c alive ((d, u) ∷ set) = ground (arith, gone_from-occurs c alive set, eq_ℤ_iff d c)

-- The same client in a set.
has-same {ℓ} : {V : Type ℓ} (d c : ℤ) (set : Dict ℤ V) → eq_ℤ d c ≡ true → has d set ≡ has c set
has-same d c set same = ap (λ k. has k set) ((eq_ℤ_iff d c).0 same)

-- A client of the snapshot is announced if its device id is known.
announce-announced :
    (c : ℤ) (alive : Members) (m : DeviceMapping)
    → has c (announce alive m).1.announced_clients
      ≡ (has c m.announced_clients || (has c alive && has c m.client_no_to_device_id))
unfolding announce has
announce-announced c [] m = ground arith
announce-announced c ((d, u) ∷ alive) m = elim (Bool-cases (has d m.announced_clients)) [
  | inl old ↦
      rw (old, announce-announced c alive m) (ground (arith, has-same d c m.announced_clients))
  | inr new ↦ elim (Bool-cases (has d m.client_no_to_device_id)) [
    | inl known ↦
        rw (new, known, announce-announced c alive _, has-insert d c tt m.announced_clients)
          (ground (arith, has-same d c m.client_no_to_device_id))
    | inr unknown ↦
        rw (new, unknown, announce-announced c alive _)
          (ground (arith, has-same d c m.client_no_to_device_id))
  ]
]

announce-connected :
    (c : ℤ) (alive : Members) (m : DeviceMapping)
    → occurs c (announce alive m).0
      ≡ (not (has c m.announced_clients) && (has c alive && has c m.client_no_to_device_id))
unfolding announce has
announce-connected c [] m = ground arith
announce-connected c ((d, u) ∷ alive) m = elim (Bool-cases (has d m.announced_clients)) [
  | inl old ↦
      rw (old, announce-connected c alive m) (ground (arith, has-same d c m.announced_clients))
  | inr new ↦ elim (Bool-cases (has d m.client_no_to_device_id)) [
    | inl known ↦
        rw (new, known, announce-connected c alive _, has-insert d c tt m.announced_clients)
          (ground (arith, has-same d c m.client_no_to_device_id, has-same d c m.announced_clients))
    | inr unknown ↦
        rw (new, unknown, announce-connected c alive _)
          (ground (arith, has-same d c m.client_no_to_device_id))
  ]
]

announce-pending :
    (c : ℤ) (alive : Members) (m : DeviceMapping)
    → has c (announce alive m).1.pending_clients ≡ (
        if has c alive && not (has c m.announced_clients)
        then not (has c m.client_no_to_device_id)
        else has c m.pending_clients)
unfolding announce has
announce-pending c [] m = ground arith
announce-pending c ((d, u) ∷ alive) m = elim (Bool-cases (has d m.announced_clients)) [
  | inl old ↦
      rw (old, announce-pending c alive m) (ground (arith, has-same d c m.announced_clients))
  | inr new ↦ elim (Bool-cases (has d m.client_no_to_device_id)) [
    | inl known ↦
        rw
          (
            new,
            known,
            announce-pending c alive _,
            has-insert d c tt m.announced_clients,
            has-erase d c m.pending_clients,
          )
          (ground (arith, has-same d c m.client_no_to_device_id, has-same d c m.announced_clients))
    | inr unknown ↦
        rw (new, unknown, announce-pending c alive _, has-insert d c tt m.pending_clients)
          (ground (arith, has-same d c m.client_no_to_device_id, has-same d c m.announced_clients))
  ]
]

announce-table :
    (alive : Members) (m : DeviceMapping)
    → (announce alive m).1.client_no_to_device_id ≡ m.client_no_to_device_id
unfolding announce
announce-table [] m = refl
announce-table ((d, u) ∷ alive) m = elim (Bool-cases (has d m.announced_clients)) [
  | inl old ↦ rw old (announce-table alive m)
  | inr new ↦ elim (Bool-cases (has d m.client_no_to_device_id)) [
    | inl known ↦ rw (new, known) (announce-table alive _)
    | inr unknown ↦ rw (new, unknown) (announce-table alive _)
  ]
]

truth_table :
    (a k o p : Bool)
    → (p && a) ≡ false
    → (((a || (o || false) && k) && (o || false)) ≡ (o && (a || k)))
      × (((if (o || false) && not a then not k else p) && (o || false))
          ≡ (o && not ((a || (o || false) && k) && (o || false))))
      × ((not a && ((o || false) && k)) ≡ (((a || (o || false) && k) && (o || false)) && not a))
      × (((a || (o || false) && k) && not (o || false))
          ≡ (a && not ((a || (o || false) && k) && (o || false))))
truth_table a k o p apart = ground arith

-- What update_presence makes of each client number, from the snapshot and the state before: it is
-- announced exactly if it is in the snapshot and was announced before or has a device id; it waits
-- exactly if it is in the snapshot and is not announced, if no client both waited and was announced
-- before; it is reported connected exactly if it becomes announced, and disconnected exactly if it
-- ceases to be.
pub update_presence-clients :
    (c : ℤ) (alive : List ℤ) (m : DeviceMapping)
    → (has c m.pending_clients && has c m.announced_clients) ≡ false
    → let (connected, disconnected, m') = update_presence alive m in
      (has c m'.announced_clients
        ≡ (occurs c alive && (has c m.announced_clients || has c m.client_no_to_device_id)))
      × (has c m'.pending_clients ≡ (occurs c alive && not (has c m'.announced_clients)))
      × (occurs c connected ≡ (has c m'.announced_clients && not (has c m.announced_clients)))
      × (occurs c disconnected ≡ (has c m.announced_clients && not (has c m'.announced_clients)))
unfolding update_presence has
update_presence-clients c alive m apart =
    let set = members_of alive [] in
    let m' = (announce set m).1 in
    let there : has c set ≡ (occurs c alive || false) = members_of-has c alive [] in
    rw
      (
        keep_alive-has c set m'.announced_clients,
        keep_alive-has c set m'.pending_clients,
        gone_from-occurs c set m'.announced_clients,
        announce-announced c set m,
        announce-pending c set m,
        announce-connected c set m,
        there,
      )
      (truth_table (has c m.announced_clients) (has c m.client_no_to_device_id) (occurs c alive)
        (has c m.pending_clients) apart)

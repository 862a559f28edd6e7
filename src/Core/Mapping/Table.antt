-- ===== src/Core/Mapping/Table.antt =====
-- The tables that apply in src/core/device_mapping.cpp builds from a mapping message.
use styly_net_sync_godot.Base.{ℕ, ◌≡◌, refl, ◌∙◌, arith, Bool, false, List, [], ◌∷◌, if◌then◌else◌}
use styly_net_sync_godot.Base.Int.{ℤ, pos, eq_ℤ, eq_ℤ_iff}
use styly_net_sync_godot.Base.Keys.{int_key, bytes_key, bytes_eq}
use styly_net_sync_godot.Base.Dict.{lookup, lookup-insert}
use styly_net_sync_godot.Protocol.Session.{DeviceIdMappingMessage, DeviceIdMappingEntry}
use styly_net_sync_godot.Core.Mapping.{
  DeviceMapping, apply, apply_entry, apply_entries, device_id_for, client_no_for, is_stealth,
  is_local,
}

abbrev pub for_client : ℤ → DeviceIdMappingEntry → Bool
for_client c entry = eq_ℤ (pos entry.client_no) c

abbrev pub for_device : List ℕ → DeviceIdMappingEntry → Bool
for_device device_id entry = bytes_eq entry.device_id device_id

-- The last value that the entries satisfying a test have, or else `d`.
abbrev pub last_of {ℓ} :
    {A : Type ℓ}
    → (DeviceIdMappingEntry → Bool)
    → (DeviceIdMappingEntry → A)
    → A
    → List DeviceIdMappingEntry
    → A
last_of test value d [] = d
last_of test value d (entry ∷ entries) =
    last_of test value (if test entry then value entry else d) entries

apply_entry-local_device_id :
    (entry : DeviceIdMappingEntry) (s : Bool × DeviceMapping)
    → (apply_entry entry s).1.local_device_id ≡ s.1.local_device_id
unfolding apply_entry
apply_entry-local_device_id entry (changed, m) = ground arith

-- What the last entry that satisfies a test decides, if every entry that satisfies it does.
module _ {ℓ} {A : Type ℓ} (look : DeviceMapping → A) (test : DeviceIdMappingEntry → Bool)
    (value : DeviceIdMappingEntry → A) (own : List ℕ)
    (step : (entry : DeviceIdMappingEntry) (s : Bool × DeviceMapping)
      → s.1.local_device_id ≡ own
      → look (apply_entry entry s).1 ≡ (if test entry then value entry else look s.1)) where
  apply_entries-last_of :
      (entries : List DeviceIdMappingEntry) (s : Bool × DeviceMapping)
      → s.1.local_device_id ≡ own
      → look (apply_entries entries s).1 ≡ last_of test value (look s.1) entries
  unfolding apply_entries
  apply_entries-last_of [] s h = refl
  apply_entries-last_of (entry ∷ entries) s h = rw (← step entry s h) (
      apply_entries-last_of entries (apply_entry entry s) (apply_entry-local_device_id entry s ∙ h))

apply_entry-device_id_for :
    (c : ℤ) (entry : DeviceIdMappingEntry) (s : Bool × DeviceMapping)
    → device_id_for c (apply_entry entry s).1
      ≡ (if eq_ℤ (pos entry.client_no) c then entry.device_id else device_id_for c s.1)
unfolding apply_entry device_id_for
apply_entry-device_id_for c entry (changed, m) =
    ground (arith, lookup-insert (pos entry.client_no) c entry.device_id m.client_no_to_device_id)

apply_entry-client_no_for :
    (device_id : List ℕ) (entry : DeviceIdMappingEntry) (s : Bool × DeviceMapping)
    → client_no_for device_id (apply_entry entry s).1 ≡ (
        if bytes_eq entry.device_id device_id
        then pos entry.client_no
        else client_no_for device_id s.1)
unfolding apply_entry client_no_for
apply_entry-client_no_for device_id entry (changed, m) =
    ground (
      arith,
      lookup-insert entry.device_id device_id (pos entry.client_no) m.device_id_to_client_no,
    )

apply_entry-is_stealth :
    (c : ℤ) (entry : DeviceIdMappingEntry) (s : Bool × DeviceMapping)
    → is_stealth c (apply_entry entry s).1
      ≡ (if eq_ℤ (pos entry.client_no) c then entry.is_stealth else is_stealth c s.1)
unfolding apply_entry is_stealth
apply_entry-is_stealth c entry (changed, m) =
    ground (arith, lookup-insert (pos entry.client_no) c entry.is_stealth m.client_no_to_stealth)

apply_entry-local_client_no :
    (own : List ℕ) (entry : DeviceIdMappingEntry) (s : Bool × DeviceMapping)
    → s.1.local_device_id ≡ own
    → (apply_entry entry s).1.local_client_no
      ≡ (if is_local own entry then pos entry.client_no else s.1.local_client_no)
unfolding apply_entry
apply_entry-local_client_no own entry (changed, m) h =
    rw h (ground (arith, eq_ℤ_iff m.local_client_no (pos entry.client_no)))

-- After a mapping message the tables are those of the message alone: of the entries for a client
-- number the last decides its device id and whether it is stealth, and of the entries for a device
-- id the last decides its client number; without one they answer "", false and 0.
pub apply-tables :
    (c : ℤ) (device_id : List ℕ) (message : DeviceIdMappingMessage) (m : DeviceMapping)
    → let m' = (apply message m).1 in
      (device_id_for c m' ≡ last_of (for_client c) (λ e. e.device_id) [] message.mappings)
      × (is_stealth c m' ≡ last_of (for_client c) (λ e. e.is_stealth) false message.mappings)
      × (client_no_for device_id m'
          ≡ last_of (for_device device_id) (λ e. pos e.client_no) (pos 0) message.mappings)
unfolding apply device_id_for is_stealth client_no_for lookup
apply-tables c device_id message m = (
  apply_entries-last_of (device_id_for c) (for_client c) (λ e. e.device_id) m.local_device_id
      (λ e s h. apply_entry-device_id_for c e s) message.mappings _ refl,
  apply_entries-last_of (is_stealth c) (for_client c) (λ e. e.is_stealth) m.local_device_id
      (λ e s h. apply_entry-is_stealth c e s) message.mappings _ refl,
  apply_entries-last_of (client_no_for device_id) (for_device device_id) (λ e. pos e.client_no)
      m.local_device_id (λ e s h. apply_entry-client_no_for device_id e s) message.mappings _ refl,
)

-- A loop that has not reported a change has kept the own number.
apply_entries-changed :
    (entries : List DeviceIdMappingEntry) (s : Bool × DeviceMapping) (n : ℤ)
    → (s.0 ≡ false → s.1.local_client_no ≡ n)
    → (apply_entries entries s).0 ≡ false
    → (apply_entries entries s).1.local_client_no ≡ n
unfolding apply_entries apply_entry
apply_entries-changed [] s n kept h = kept h
apply_entries-changed (entry ∷ entries) (changed, m) n kept h =
    apply_entries-changed entries (apply_entry entry (changed, m)) n
      (λ same. ground (arith, kept, same)) h

-- The own client number after a mapping message is that of the last entry with the own device id,
-- if that is not empty, and else it stays. The result reports the number, and if it reports no
-- change, the number is the one before.
pub apply-local_client_no :
    (message : DeviceIdMappingMessage) (m : DeviceMapping)
    → let (result, m') = apply message m in
      (m'.local_client_no
        ≡ last_of
            (is_local m.local_device_id)
            (λ e. pos e.client_no)
            m.local_client_no
            message.mappings)
      × (result.local_client_no ≡ m'.local_client_no)
      × (result.local_client_no_changed ≡ false → m'.local_client_no ≡ m.local_client_no)
unfolding apply
apply-local_client_no message m = (
  apply_entries-last_of (λ m. m.local_client_no) (is_local m.local_device_id) (λ e. pos e.client_no)
      m.local_device_id (apply_entry-local_client_no m.local_device_id) message.mappings _ refl,
  refl,
  apply_entries-changed message.mappings _ m.local_client_no (λ same. refl),
)

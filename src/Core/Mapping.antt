-- ===== src/Core/Mapping.antt =====
-- DeviceMapping in src/core/device_mapping.*: the table of client numbers and device ids, and the
-- presence of the other clients. A `std::set<int>` is a map to `Unit`. Its proofs are in child
-- modules, which use this one.
use styly_net_sync_godot.Base.{
  ℕ, Bool, true, false, not, ◌&&◌, Option, none, some, List, [], ◌∷◌, if◌then◌else◌,
}
use styly_net_sync_godot.Base.Int.{ℤ, pos, eq_ℤ}
use styly_net_sync_godot.Base.Keys.{int_key, bytes_key, bytes_eq}
use styly_net_sync_godot.Base.Dict.{Dict, lookup, has, insert, erase}
use styly_net_sync_godot.Protocol.Session.{DeviceIdMappingMessage, DeviceIdMappingEntry}
pub mod Table
pub mod Presence

abbrev pub Members : Type 0
Members = Dict ℤ (Unit {0})

pub record DeviceMapping : Type 0 where
  pub local_device_id : List ℕ
  pub local_client_no : ℤ
  pub client_no_to_device_id : Dict ℤ (List ℕ)
  pub device_id_to_client_no : Dict (List ℕ) ℤ
  pub client_no_to_stealth : Dict ℤ Bool
  -- Seen in a room snapshot, but without a mapping yet.
  pub pending_clients : Members
  -- Announced as connected, and not as disconnected since.
  pub announced_clients : Members

pub record ApplyResult : Type 0 where
  pub local_client_no_changed : Bool
  pub local_client_no : ℤ
  pub server_version_seen : Bool
  pub server_version_major : ℕ
  pub server_version_minor : ℕ
  pub server_version_patch : ℕ

abbrev is_empty : List ℕ → Bool
is_empty [] = true
is_empty (x ∷ xs) = false

-- `!local_device_id_.empty() && entry.device_id == local_device_id_`
abbrev pub is_local : List ℕ → DeviceIdMappingEntry → Bool
is_local local_device_id entry =
    not (is_empty local_device_id) && bytes_eq entry.device_id local_device_id

-- The body of the loop of apply, on the tables and on `local_client_no_changed`.
unfoldable pub apply_entry : DeviceIdMappingEntry → Bool × DeviceMapping → Bool × DeviceMapping
apply_entry entry (changed, m) =
    let client_no = pos entry.client_no in
    let m' = record m {
      client_no_to_device_id = insert client_no entry.device_id m.client_no_to_device_id;
      device_id_to_client_no = insert entry.device_id client_no m.device_id_to_client_no;
      client_no_to_stealth = insert client_no entry.is_stealth m.client_no_to_stealth;
    } in
    if is_local m.local_device_id entry && not (eq_ℤ m.local_client_no client_no)
    then (true, record m' { local_client_no = client_no })
    else (changed, m')

unfoldable pub apply_entries :
    List DeviceIdMappingEntry → Bool × DeviceMapping → Bool × DeviceMapping
apply_entries [] s = s
apply_entries (entry ∷ entries) s = apply_entries entries (apply_entry entry s)

unfoldable pub apply : DeviceIdMappingMessage → DeviceMapping → ApplyResult × DeviceMapping
apply message m =
    let (changed, m') = apply_entries message.mappings (
      false,
      record m {
        client_no_to_device_id = [];
        device_id_to_client_no = [];
        client_no_to_stealth = [];
      },
    ) in
    (
      record {
        local_client_no_changed = changed;
        local_client_no = m'.local_client_no;
        server_version_seen = true;
        server_version_major = message.server_version_major;
        server_version_minor = message.server_version_minor;
        server_version_patch = message.server_version_patch;
      },
      m',
    )

abbrev or_else {ℓ} : {A : Type ℓ} → A → Option A → A
or_else d none = d
or_else d (some a) = a

unfoldable pub device_id_for : ℤ → DeviceMapping → List ℕ
device_id_for client_no m = or_else [] (lookup client_no m.client_no_to_device_id)

unfoldable pub client_no_for : List ℕ → DeviceMapping → ℤ
client_no_for device_id m = or_else (pos 0) (lookup device_id m.device_id_to_client_no)

unfoldable pub is_stealth : ℤ → DeviceMapping → Bool
is_stealth client_no m = or_else false (lookup client_no m.client_no_to_stealth)

-- `std::set<int>(alive.begin(), alive.end())`
unfoldable pub members_of : List ℤ → Members → Members
members_of [] set = set
members_of (c ∷ cs) set = members_of cs (insert c tt set)

-- The first loop of update_presence: the clients it announces, in order.
unfoldable pub announce : Members → DeviceMapping → List ℤ × DeviceMapping
announce [] m = ([], m)
announce ((c, u) ∷ alive) m =
    let skipped = announce alive m in
    let (connected, m') = announce alive (record m {
      announced_clients = insert c tt m.announced_clients;
      pending_clients = erase c m.pending_clients;
    }) in
    let waiting = announce alive (record m { pending_clients = insert c tt m.pending_clients }) in
    if has c m.announced_clients
    then skipped
    else if has c m.client_no_to_device_id
    then (c ∷ connected, m')
    else waiting

-- The members of the second set that the first has, and those that it does not have.
unfoldable pub keep_alive : Members → Members → Members
keep_alive alive [] = []
keep_alive alive ((c, u) ∷ set) =
    let rest = keep_alive alive set in if has c alive then (c, u) ∷ rest else rest

unfoldable pub gone_from : Members → Members → List ℤ
gone_from alive [] = []
gone_from alive ((c, u) ∷ set) =
    let rest = gone_from alive set in if has c alive then rest else c ∷ rest

-- The announced and the forgotten clients of a snapshot, as `connected` and `disconnected`.
unfoldable pub update_presence : List ℤ → DeviceMapping → List ℤ × List ℤ × DeviceMapping
update_presence alive m =
    let alive_set = members_of alive [] in
    let (connected, m') = announce alive_set m in
    (
      connected,
      gone_from alive_set m'.announced_clients,
      record m' {
        pending_clients = keep_alive alive_set m'.pending_clients;
        announced_clients = keep_alive alive_set m'.announced_clients;
      },
    )

unfoldable pub clear : DeviceMapping → DeviceMapping
clear m = record m {
  client_no_to_device_id = [];
  device_id_to_client_no = [];
  client_no_to_stealth = [];
  pending_clients = [];
  announced_clients = [];
  local_client_no = pos 0;
}

abbrev pub keys {ℓ} : {V : Type ℓ} → Dict ℤ V → List ℤ
keys [] = []
keys ((c, v) ∷ table) = c ∷ keys table

unfoldable pub known_client_numbers : DeviceMapping → List ℤ
known_client_numbers m = keys m.client_no_to_device_id

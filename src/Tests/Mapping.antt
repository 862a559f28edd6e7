-- ===== src/Tests/Mapping.antt =====
-- Runs of DeviceMapping in src/core/device_mapping.cpp.
use styly_net_sync_godot.Base.{◌≡◌, refl, true, false, not, ◌&&◌, ◌||◌, [], ◌∷◌}
use styly_net_sync_godot.Base.Int.{pos}
use styly_net_sync_godot.Base.Keys.{int_key, bytes_key}
use styly_net_sync_godot.Base.Dict.{has}
use styly_net_sync_godot.Protocol.Session.{DeviceIdMappingMessage}
use styly_net_sync_godot.Core.Mapping.{DeviceMapping, apply, is_local, update_presence}
use styly_net_sync_godot.Core.Mapping.Table.{last_of, apply-local_client_no}
use styly_net_sync_godot.Core.Mapping.Presence.{occurs, update_presence-clients}

abbrev pub mapping : DeviceMapping
mapping = record {
  local_device_id = 97 ∷ [];
  local_client_no = pos 0;
  client_no_to_device_id = (pos 2, 98 ∷ []) ∷ [];
  device_id_to_client_no = (98 ∷ [], pos 2) ∷ [];
  client_no_to_stealth = (pos 2, false) ∷ [];
  pending_clients = (pos 2, tt) ∷ (pos 5, tt) ∷ [];
  announced_clients = (pos 3, tt) ∷ [];
}

abbrev table : DeviceIdMappingMessage
table = record {
  server_version_major = 0;
  server_version_minor = 12;
  server_version_patch = 1;
  mappings =
      record { client_no = 1; device_id = 97 ∷ []; is_stealth = false }
      ∷ record { client_no = 2; device_id = 98 ∷ []; is_stealth = true }
      ∷ [];
}

apart : (has (pos 2) mapping.pending_clients && has (pos 2) mapping.announced_clients) ≡ false
unfolding has
apart = refl

update_presence-clients_example :
    let (connected, disconnected, m') = update_presence (pos 2 ∷ pos 5 ∷ []) mapping in
    (has (pos 2) m'.announced_clients ≡ (
      occurs (pos 2) (pos 2 ∷ pos 5 ∷ [])
      && (has (pos 2) mapping.announced_clients || has (pos 2) mapping.client_no_to_device_id)))
    × (has (pos 2) m'.pending_clients
        ≡ (occurs (pos 2) (pos 2 ∷ pos 5 ∷ []) && not (has (pos 2) m'.announced_clients)))
    × (occurs (pos 2) connected
        ≡ (has (pos 2) m'.announced_clients && not (has (pos 2) mapping.announced_clients)))
    × (occurs (pos 2) disconnected
        ≡ (has (pos 2) mapping.announced_clients && not (has (pos 2) m'.announced_clients)))
update_presence-clients_example = update_presence-clients (pos 2) (pos 2 ∷ pos 5 ∷ []) mapping apart

apply-local_client_no_example :
    let (result, m') = apply table mapping in
    (m'.local_client_no
      ≡ last_of (is_local (97 ∷ [])) (λ e. pos e.client_no) (pos 0) table.mappings)
    × (result.local_client_no ≡ m'.local_client_no)
    × (result.local_client_no_changed ≡ false → m'.local_client_no ≡ pos 0)
apply-local_client_no_example = apply-local_client_no table mapping

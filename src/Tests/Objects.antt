-- ===== src/Tests/Objects.antt =====
-- Runs of ObjectSyncManager in src/core/object_sync_manager.cpp.
use styly_net_sync_godot.Base.{ℕ, ◌≡◌, refl, true, false, some, [], ◌∷◌, arith, if◌then◌else◌}
use styly_net_sync_godot.Base.Int.{ℤ, pos, negsuc}
use styly_net_sync_godot.Base.Keys.{nat_key}
use styly_net_sync_godot.Base.Dict.{lookup}
use styly_net_sync_godot.Base.Ascending.{Ascending}
use styly_net_sync_godot.Protocol.Pose.Double.{◌⊖◌}
use styly_net_sync_godot.Protocol.Pose.Codec.{vec3, identity}
use styly_net_sync_godot.Protocol.Pose.Body.{PoseTransform}
use styly_net_sync_godot.Protocol.Pose.Objects.{RoomObjectsMessage}
use styly_net_sync_godot.Core.Objects.{
  Entry, ObjectManager, new_entry, long_ago, due_pose, poses_equal, send_interval, object_payload,
  tick, handle_ownership_changed, handle_room_objects, owner_of, is_registered,
}
use styly_net_sync_godot.Core.Objects.Sending.{lookup-tick}
use styly_net_sync_godot.Core.Objects.Handover.{handle_ownership_changed-sends}
use styly_net_sync_godot.Core.Objects.Due.{Ticked, tick-Ticked}
use styly_net_sync_godot.Core.Objects.Ownership.{
  of_object, walk, last_owner, owners_named, handle_room_objects-walk,
}
use styly_net_sync_godot.Tests.Fixed.{fixed_double}

abbrev raised : PoseTransform ℤ
raised = record { position = vec3 (pos 1500) (negsuc 249) (pos 2000); rotation = identity }

abbrev blank : ℕ → Entry ℤ
blank id = new_entry id

-- An object of client `owner`, with a pose that was not sent yet.
abbrev placed : ℕ → ℤ → Entry ℤ
placed id owner = record (blank id) {
  state = record (blank id).state { owner_client_no = owner };
  local_pose = some raised;
}

-- Client 3 owns object 5, and client 4 owns object 9.
abbrev pub table : ObjectManager ℤ
table = record {
  link = record { answer = some (λ n payload. true); calls = 0; sent = [] };
  relays = true;
  local_client_no = pos 3;
  local_device_id = 100 ∷ [];
  objects = (5, placed 5 (pos 3)) ∷ (9, placed 9 (pos 4)) ∷ [];
}

-- Ten a second, and the time of ten seconds.
abbrev rate : ℤ
rate = pos 10_000

abbrev now : ℤ
now = pos 10_000

ascending : Ascending table.objects
ascending = ((omega arith, tt), (tt, tt))

tick-Ticked_example :
    let (sent, m') = tick now rate table in
    Ticked now rate table 5 (lookup 5 table.objects) (lookup 5 sent) (lookup 5 m'.objects)
tick-Ticked_example = tick-Ticked now rate table 5 ascending

due :
    lookup 5 (tick now rate table).0 ≡ some (object_payload (100 ∷ []) 5 (placed 5 (pos 3)) raised)
unfolding due_pose poses_equal send_interval lookup
due = (lookup-tick now rate table 5 (refl, refl) ascending).0

late : fixed_double.lt (now ⊖ long_ago) (send_interval rate) ≡ false
unfolding send_interval
late = refl

handle_ownership_changed-sends_example :
    let m' =
      (handle_ownership_changed
        (record { object_id = 9; new_owner_client_no = 3; previous_owner_client_no = 4 })
        table).1 in
    lookup 9 (tick now rate m').0 ≡ some (object_payload (100 ∷ []) 9 (placed 9 (pos 4)) raised)
unfolding lookup
handle_ownership_changed-sends_example =
    handle_ownership_changed-sends now rate table 9 3 4 (placed 9 (pos 4)) raised (refl, refl)
      ascending refl refl refl late

-- A broadcast that moves object 9 to nobody.
abbrev released : RoomObjectsMessage ℤ
released = record {
  broadcast_time = 0;
  objects =
      record {
        object_id = 9;
        owner_client_no = 0;
        pose_seq = 2;
        pose_time = 0;
        position = raised.position;
        rotation = identity;
      }
      ∷ [];
}

handle_room_objects-walk_example :
    let (changes, m') = handle_room_objects released table in
    let owners = if is_registered 9 table then owners_named 9 released.objects else [] in
    (of_object 9 changes ≡ walk 9 (owner_of 9 table) owners)
    × (owner_of 9 m' ≡ last_owner (owner_of 9 table) owners)
    × (is_registered 9 m' ≡ is_registered 9 table)
handle_room_objects-walk_example = handle_room_objects-walk released table 9

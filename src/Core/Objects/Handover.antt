-- ===== src/Core/Objects/Handover.antt =====
-- What ObjectSyncManager of src/core/object_sync_manager.cpp sends after it takes over an object, and
-- after its room is left.
use styly_net_sync_godot.Base.{
  ℕ, ◌≡◌, refl, sym, ap, ◌∙◌, true, false, not, Option, none, some, List, [], ◌∷◌, arith, inl, inr,
  Bool-cases,
}
use styly_net_sync_godot.Base.{if_cases}
use styly_net_sync_godot.Base.Int.{ℤ, pos, eq_ℤ, eq_ℤ_iff}
use styly_net_sync_godot.Base.Keys.{nat_key}
use styly_net_sync_godot.Base.Dict.{Dict, lookup, insert, lookup-insert}
use styly_net_sync_godot.Base.Ascending.{Ascending, insert-Ascending}
use styly_net_sync_godot.Protocol.Pose.Double.{Double, ◌⊖◌}
use styly_net_sync_godot.Protocol.Pose.Body.{PoseTransform}
use styly_net_sync_godot.Core.Objects.{
  Entry, ObjectManager, Transforms, owner_in, owner_of, ids, send_interval, due_pose,
  object_payload, tick_entries, tick, take_over, handle_ownership_changed, cleared_entry,
  clear_entries, clear_room_scoped_state, registered_object_ids, long_ago,
}
use styly_net_sync_godot.Core.Objects.Sending.{due_payload, IsActive, lookup-tick}

lookup-insert_self {ℓ} :
    {V : Type ℓ} (k : ℕ) (v : V) (m : Dict ℕ V) → lookup k (insert k v m) ≡ some v
lookup-insert_self k v m = ground (arith, lookup-insert k k v m)

module _ {W : Type 0} ⦃d : Double W⦄ where
  due_payload-taken :
      (local : ℤ) (device_id : List ℕ) (now interval : W) (id owner : ℕ) (entry : Entry W)
      (pose : PoseTransform W)
      → eq_ℤ local (pos 0) ≡ false
      → local ≡ pos owner
      → entry.local_pose ≡ some pose
      → d.lt (now ⊖ long_ago) interval ≡ false
      → due_payload local device_id now interval id (some (take_over local (pos owner) entry))
        ≡ some (object_payload device_id id entry pose)
  unfolding due_pose object_payload
  due_payload-taken local device_id now interval id owner entry pose active e mine late =
      let same : eq_ℤ (pos owner) local ≡ true = (eq_ℤ_iff (pos owner) local).1 (sym e) in
      rw (same, active, mine, same, late) refl

  -- Once the server gives an object to the local client, with a client number that is not 0, its
  -- next tick sends the pose that was submitted for the object, whatever was sent of it before, if
  -- more than a send interval went by since 1e9 seconds before the clock's zero.
  pub handle_ownership_changed-sends :
      (now rate : W) (m : ObjectManager W) (id : ℕ) (owner previous : ℕ) (entry : Entry W)
      (pose : PoseTransform W)
      → IsActive m
      → Ascending m.objects
      → m.local_client_no ≡ pos owner
      → lookup id m.objects ≡ some entry
      → entry.local_pose ≡ some pose
      → d.lt (now ⊖ long_ago) (send_interval rate) ≡ false
      → let m' =
          (handle_ownership_changed
            (record {
              object_id = id;
              new_owner_client_no = owner;
              previous_owner_client_no = previous;
            })
            m).1 in
        lookup id (tick now rate m').0 ≡ some (object_payload m.local_device_id id entry pose)
  unfolding handle_ownership_changed
  handle_ownership_changed-sends now rate m id owner previous entry pose active h e found mine
        late =
      let taken = take_over m.local_client_no (pos owner) entry in
      rw found (
        (lookup-tick now rate (record m { objects = insert id taken m.objects }) id active
          (insert-Ascending id taken m.objects h)).0
        ∙ ap (due_payload m.local_client_no m.local_device_id now (send_interval rate) id)
            (lookup-insert_self id taken m.objects)
        ∙ due_payload-taken m.local_client_no m.local_device_id now (send_interval rate) id owner
            entry pose active.0 e mine late)

  ids-clear_entries : (objects : Dict ℕ (Entry W)) → ids (clear_entries objects) ≡ ids objects
  ids-clear_entries [] = refl
  ids-clear_entries ((k, entry) ∷ rest) = ap (◌∷◌ k) (ids-clear_entries rest)

  owner_in-clear_entries :
      (id : ℕ) (objects : Dict ℕ (Entry W)) → owner_in (lookup id (clear_entries objects)) ≡ pos 0
  unfolding lookup cleared_entry
  owner_in-clear_entries id [] = refl
  owner_in-clear_entries id ((k, entry) ∷ rest) = ground (arith, owner_in-clear_entries id rest)

  due_pose-cleared :
      (local : ℤ) (now interval : W) (entry : Entry W) (mine : Option (PoseTransform W))
      → eq_ℤ local (pos 0) ≡ false
      → due_pose local now interval (cleared_entry entry) mine ≡ none
  unfolding due_pose cleared_entry
  due_pose-cleared local now interval entry none h = refl
  due_pose-cleared local now interval entry (some pose) h =
      ground (arith, h, eq_ℤ_iff local (pos 0), eq_ℤ_iff (pos 0) local)

  tick_entries-cleared :
      (local : ℤ) (device_id : List ℕ) (now interval : W) (objects : Dict ℕ (Entry W))
      → eq_ℤ local (pos 0) ≡ false
      → (tick_entries local device_id now interval (clear_entries objects)).0 ≡ []
  unfolding tick_entries
  tick_entries-cleared local device_id now interval [] h = refl
  tick_entries-cleared local device_id now interval ((k, entry) ∷ rest) h =
      rw (due_pose-cleared local now interval entry (cleared_entry entry).local_pose h)
        (tick_entries-cleared local device_id now interval rest h)

  tick-cleared :
      (now rate : W) (m : ObjectManager W)
      → (tick now rate (record m { objects = clear_entries m.objects })).0 ≡ []
  unfolding tick
  tick-cleared now rate m = elim (Bool-cases (eq_ℤ m.local_client_no (pos 0))) [
    | inl zero ↦ rw zero refl
    | inr number ↦ rw number (
        if_cases (λ (r : Transforms × ObjectManager W). r.0 ≡ []) (not m.relays) refl
          (tick_entries-cleared m.local_client_no m.local_device_id now (send_interval rate)
            m.objects number))
  ]

  -- After the room scoped state is cleared, the same objects are registered, none has an owner, and
  -- a tick sends nothing.
  pub clear_room_scoped_state-silent :
      (now rate : W) (m : ObjectManager W)
      → let m' = clear_room_scoped_state m in
        (registered_object_ids m' ≡ registered_object_ids m)
        × ((id : ℕ) → owner_of id m' ≡ pos 0)
        × ((tick now rate m').0 ≡ [])
  unfolding clear_room_scoped_state registered_object_ids owner_of
  clear_room_scoped_state-silent now rate m = (
    ids-clear_entries m.objects,
    (λ id. owner_in-clear_entries id m.objects),
    tick-cleared now rate m,
  )

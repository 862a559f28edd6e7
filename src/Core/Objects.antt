-- ===== src/Core/Objects.antt =====
-- ObjectSyncManager of src/core/object_sync_manager.*: the registered objects, who owns them, and
-- when the owner's pose is sent. A flag with the slot that it guards is an Option. Its proofs are
-- in child modules, which use this one.
pub mod Due
pub mod Sending
pub mod Handover
pub mod Ownership
pub mod Requests
use styly_net_sync_godot.Base.{
  ℕ, suc, ◌%◌, ◌^◌, Bool, true, false, not, ◌&&◌, ◌||◌, Option, none, some, List, [], ◌∷◌, ◌++◌,
  ◌==◌, if◌then◌else◌,
}
use styly_net_sync_godot.Base.Int.{ℤ, pos, eq_ℤ}
use styly_net_sync_godot.Base.Keys.{nat_key}
use styly_net_sync_godot.Base.Dict.{Dict, lookup, has, insert, erase}
use styly_net_sync_godot.Core.Link.{Link, transmit}
use styly_net_sync_godot.Protocol.Ownership.{
  ownership_op_release, ownership_op_request, serialize_object_ownership_request,
  ObjectOwnershipChangedMessage, ObjectOwnershipRejectedMessage,
}
use styly_net_sync_godot.Protocol.Pose.Double.{Double, ◌⊖◌, ◌⊘◌, unit}
use styly_net_sync_godot.Protocol.Pose.Body.{PoseTransform, no_transform}
use styly_net_sync_godot.Protocol.Pose.Objects.{
  RoomObjectState, RoomObjectsMessage, serialize_object_pose,
}

pub record ObjectState (W : Type 0) : Type 0 where
  pub object_id : ℕ
  pub owner_client_no : ℤ
  pub pose_seq : ℕ
  -- The times are bit patterns.
  pub pose_time : ℕ
  pub broadcast_time : ℕ
  pub pose : PoseTransform W
  pub has_pose : Bool

pub record OwnershipChange : Type 0 where
  pub object_id : ℕ
  pub new_owner_client_no : ℤ
  pub previous_owner_client_no : ℤ

pub record OwnershipRejection : Type 0 where
  pub object_id : ℕ
  pub current_owner_client_no : ℤ
  pub reason_code : ℤ

pub record Entry (W : Type 0) : Type 0 where
  pub state : ObjectState W
  pub local_pose : Option (PoseTransform W)
  pub last_send_time : W
  pub send_pose_seq : ℕ
  pub last_sent_pose : Option (PoseTransform W)

-- `relays` is whether a sender for transforms was set.
pub record ObjectManager (W : Type 0) : Type 0 where
  pub link : Link
  pub relays : Bool
  pub local_client_no : ℤ
  pub local_device_id : List ℕ
  pub objects : Dict ℕ (Entry W)

-- Ids with the payloads that are handed to the transform lane, in order.
abbrev pub Transforms : Type 0
Transforms = List (ℕ × List ℕ)

unfoldable pub handle_ownership_rejected : ObjectOwnershipRejectedMessage → OwnershipRejection
handle_ownership_rejected message = record {
  object_id = message.object_id;
  current_owner_client_no = pos message.current_owner_client_no;
  reason_code = pos message.reason_code;
}

module _ {W : Type 0} where
  unfoldable pub set_local_identity : ℤ → List ℕ → ObjectManager W → ObjectManager W
  set_local_identity client_no device_id m = record m {
    local_client_no = client_no;
    local_device_id = device_id;
  }

  unfoldable pub unregister_object : ℕ → ObjectManager W → ObjectManager W
  unregister_object object_id m = record m { objects = erase object_id m.objects }

  unfoldable pub is_registered : ℕ → ObjectManager W → Bool
  is_registered object_id m = has object_id m.objects

  abbrev pub ids : Dict ℕ (Entry W) → List ℕ
  ids [] = []
  ids ((object_id, entry) ∷ rest) = object_id ∷ ids rest

  unfoldable pub registered_object_ids : ObjectManager W → List ℕ
  registered_object_ids m = ids m.objects

  -- `find`, and what is done with the entry if there is one.
  abbrev pub update :
      (Entry W → Entry W) → ℕ → Option (Entry W) → Dict ℕ (Entry W) → Dict ℕ (Entry W)
  update f object_id none objects = objects
  update f object_id (some entry) objects = insert object_id (f entry) objects

  unfoldable pub submit_local_pose : ℕ → PoseTransform W → ObjectManager W → ObjectManager W
  submit_local_pose object_id pose m = record m {
    objects =
        update (λ entry. record entry { local_pose = some pose }) object_id
          (lookup object_id m.objects) m.objects;
  }

  unfoldable pub send_ownership_request : ℕ → ℕ → ObjectManager W → Bool × ObjectManager W
  send_ownership_request object_id operation_type m =
      if object_id == 0
      then (false, m)
      else let (ok, link) =
          transmit
            (serialize_object_ownership_request (record {
              device_id = m.local_device_id;
              operation_type = operation_type;
              object_id = object_id;
            }))
            m.link in
        (ok, record m { link = link })

  unfoldable pub request_ownership : ℕ → ObjectManager W → Bool × ObjectManager W
  unfolding send_ownership_request
  request_ownership object_id = send_ownership_request object_id ownership_op_request

  unfoldable pub release_ownership : ℕ → ObjectManager W → Bool × ObjectManager W
  unfolding send_ownership_request
  release_ownership object_id = send_ownership_request object_id ownership_op_release

  abbrev pub state_of : Option (Entry W) → Option (ObjectState W)
  state_of none = none
  state_of (some entry) = some entry.state

  unfoldable pub get_state : ℕ → ObjectManager W → Option (ObjectState W)
  get_state object_id m = state_of (lookup object_id m.objects)

  abbrev pub owner_in : Option (Entry W) → ℤ
  owner_in none = pos 0
  owner_in (some entry) = entry.state.owner_client_no

  unfoldable pub owner_of : ℕ → ObjectManager W → ℤ
  owner_of object_id m = owner_in (lookup object_id m.objects)

  unfoldable pub is_owned_by_local : ℕ → ObjectManager W → Bool
  unfolding owner_of
  is_owned_by_local object_id m =
      let owner = owner_of object_id m in not (eq_ℤ owner (pos 0)) && eq_ℤ owner m.local_client_no

  -- One record of a broadcast, for the entry of its object.
  unfoldable pub absorb : ℤ → ℕ → RoomObjectState W → Entry W → Entry W
  absorb local broadcast_time state entry =
      let owned = record entry.state { owner_client_no = pos state.owner_client_no } in
      if not (eq_ℤ (pos state.owner_client_no) local) || eq_ℤ local (pos 0)
      then record entry {
        state = record owned {
          pose_seq = state.pose_seq;
          pose_time = state.pose_time;
          broadcast_time = broadcast_time;
          pose = record { position = state.position; rotation = state.rotation };
          has_pose = true;
        };
      }
      else record entry { state = owned }

  -- The change that a record reports.
  abbrev pub change_in : RoomObjectState W → Option (Entry W) → List OwnershipChange
  change_in state none = []
  change_in state (some entry) =
      if eq_ℤ entry.state.owner_client_no (pos state.owner_client_no)
      then []
      else record {
        object_id = state.object_id;
        new_owner_client_no = pos state.owner_client_no;
        previous_owner_client_no = entry.state.owner_client_no;
      }
        ∷ []

  unfoldable pub room_states :
      ℤ → ℕ → List (RoomObjectState W) → Dict ℕ (Entry W) → List OwnershipChange × Dict ℕ (Entry W)
  unfolding absorb
  room_states local broadcast_time [] objects = ([], objects)
  room_states local broadcast_time (state ∷ states) objects =
      let found = lookup state.object_id objects in
      let (changes, objects') =
        room_states local broadcast_time states
          (update (absorb local broadcast_time state) state.object_id found objects) in
      (change_in state found ++ changes, objects')

  -- The changes are what is appended to the caller's list.
  unfoldable pub handle_room_objects :
      RoomObjectsMessage W → ObjectManager W → List OwnershipChange × ObjectManager W
  unfolding room_states
  handle_room_objects message m =
      let (changes, objects) =
        room_states m.local_client_no message.broadcast_time message.objects m.objects in
      (changes, record m { objects = objects })

module _ {W : Type 0} ⦃d : Double W⦄ where
  -- -1e9, the time of no sending
  abbrev pub long_ago : W
  long_ago = d.neg (d.decimal 1_000_000_000 0)

  abbrev pub new_entry : ℕ → Entry W
  new_entry object_id = record {
    state = record {
      object_id = object_id;
      owner_client_no = pos 0;
      pose_seq = 0;
      pose_time = 0;
      broadcast_time = 0;
      pose = no_transform;
      has_pose = false;
    };
    local_pose = none;
    last_send_time = long_ago;
    send_pose_seq = 0;
    last_sent_pose = none;
  }

  -- `objects_[object_id]`, which makes an entry where there is none.
  abbrev registered : ℕ → Option (Entry W) → Entry W
  registered object_id none = new_entry object_id
  registered object_id (some entry) = record entry {
    state = record entry.state { object_id = object_id };
  }

  unfoldable pub register_object : ℕ → ObjectManager W → Bool × ObjectManager W
  register_object object_id m = if object_id == 0 then (false, m) else (
    true,
    record m {
      objects = insert object_id (registered object_id (lookup object_id m.objects)) m.objects;
    },
  )

  unfoldable pub poses_equal : PoseTransform W → PoseTransform W → Bool
  poses_equal a b =
      d.eq a.position.x b.position.x
      && (d.eq a.position.y b.position.y
          && (d.eq a.position.z b.position.z
              && (d.eq a.rotation.x b.rotation.x
                  && (d.eq a.rotation.y b.rotation.y
                      && (d.eq a.rotation.z b.rotation.z && d.eq a.rotation.w b.rotation.w)))))

  -- `1.0 / std::max(0.5, transform_send_rate)`
  unfoldable pub send_interval : W → W
  send_interval rate = unit ⊘ (if d.lt (d.decimal 5 1) rate then rate else d.decimal 5 1)

  abbrev pub same_pose : PoseTransform W → Option (PoseTransform W) → Bool
  same_pose pose none = false
  same_pose pose (some last) = poses_equal pose last

  -- The pose that is due for sending: none where the loop of tick goes on to the next object.
  unfoldable pub due_pose :
      ℤ → W → W → Entry W → Option (PoseTransform W) → Option (PoseTransform W)
  unfolding poses_equal
  due_pose local now interval entry none = none
  due_pose local now interval entry (some pose) =
      let since = now ⊖ entry.last_send_time in
      if not (eq_ℤ entry.state.owner_client_no local)
      then none
      else if d.lt since interval
      then none
      else if same_pose pose entry.last_sent_pose && d.lt since unit
      then none
      else some pose

  abbrev pub sent_entry : W → Entry W → PoseTransform W → Entry W
  sent_entry now entry pose = record entry {
    send_pose_seq = suc entry.send_pose_seq % 2 ^ 16;
    last_send_time = now;
    last_sent_pose = some pose;
  }

  unfoldable pub object_payload : List ℕ → ℕ → Entry W → PoseTransform W → List ℕ
  unfolding serialize_object_pose
  object_payload device_id object_id entry pose = serialize_object_pose (record {
    device_id = device_id;
    object_id = object_id;
    pose_seq = suc entry.send_pose_seq % 2 ^ 16;
    position = pose.position;
    rotation = pose.rotation;
  })

  -- One round of the loop of tick.
  abbrev pub send_entry : List ℕ → W → ℕ → Entry W → Option (PoseTransform W) → Transforms × Entry W
  send_entry device_id now object_id entry none = ([], entry)
  send_entry device_id now object_id entry (some pose) =
      ((object_id, object_payload device_id object_id entry pose) ∷ [], sent_entry now entry pose)

  unfoldable pub tick_entries :
      ℤ → List ℕ → W → W → Dict ℕ (Entry W) → Transforms × Dict ℕ (Entry W)
  unfolding due_pose object_payload
  tick_entries local device_id now interval [] = ([], [])
  tick_entries local device_id now interval ((object_id, entry) ∷ rest) =
      let (sent, entry') =
        send_entry device_id now object_id entry
          (due_pose local now interval entry entry.local_pose) in
      let (more, rest') = tick_entries local device_id now interval rest in
      (sent ++ more, (object_id, entry') ∷ rest')

  unfoldable pub tick : W → W → ObjectManager W → Transforms × ObjectManager W
  unfolding send_interval tick_entries
  tick now transform_send_rate m =
      if eq_ℤ m.local_client_no (pos 0) || not m.relays
      then ([], m)
      else let (sent, objects) =
          tick_entries m.local_client_no m.local_device_id now (send_interval transform_send_rate)
            m.objects in
        (sent, record m { objects = objects })

  -- The client takes ownership: what it sent before is forgotten.
  abbrev pub take_over : ℤ → ℤ → Entry W → Entry W
  take_over local owner entry =
      let owned = record entry { state = record entry.state { owner_client_no = owner } } in
      if eq_ℤ owner local && not (eq_ℤ local (pos 0))
      then record owned { last_sent_pose = none; last_send_time = long_ago }
      else owned

  unfoldable pub handle_ownership_changed :
      ObjectOwnershipChangedMessage → ObjectManager W → OwnershipChange × ObjectManager W
  handle_ownership_changed message m = (
    record {
      object_id = message.object_id;
      new_owner_client_no = pos message.new_owner_client_no;
      previous_owner_client_no = pos message.previous_owner_client_no;
    },
    record m {
      objects =
          update (take_over m.local_client_no (pos message.new_owner_client_no)) message.object_id
            (lookup message.object_id m.objects) m.objects;
    },
  )

  unfoldable pub cleared_entry : Entry W → Entry W
  cleared_entry entry = record entry {
    state = record entry.state {
      owner_client_no = pos 0;
      has_pose = false;
      pose_seq = 0;
      pose_time = 0;
      broadcast_time = 0;
    };
    last_sent_pose = none;
    last_send_time = long_ago;
    send_pose_seq = 0;
  }

  abbrev pub clear_entries : Dict ℕ (Entry W) → Dict ℕ (Entry W)
  clear_entries [] = []
  clear_entries ((object_id, entry) ∷ rest) = (object_id, cleared_entry entry) ∷ clear_entries rest

  unfoldable pub clear_room_scoped_state : ObjectManager W → ObjectManager W
  unfolding cleared_entry
  clear_room_scoped_state m = record m { objects = clear_entries m.objects }

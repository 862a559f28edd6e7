-- ===== src/Core/Objects/Ownership.antt =====
-- Who owns an object according to src/core/object_sync_manager.cpp, and what it reports of it.
use styly_net_sync_godot.Base.{
  ℕ, ◌≡◌, refl, sym, ap, ◌∙◌, subst, true, false, not, ◌||◌, Option, none, some, List, [], ◌∷◌,
  ◌++◌, ◌==◌, ==_iff, if◌then◌else◌, if_cases, arith, inl, inr, Bool-cases,
}
use styly_net_sync_godot.Base.Int.{ℤ, pos, eq_ℤ, eq_ℤ_iff}
use styly_net_sync_godot.Base.Keys.{nat_key}
use styly_net_sync_godot.Base.Dict.{
  Dict, lookup, has, insert, lookup-insert, has-lookup, lookup-none,
}
use styly_net_sync_godot.Protocol.Pose.Objects.{RoomObjectState, RoomObjectsMessage}
use styly_net_sync_godot.Core.Objects.{
  Entry, ObjectManager, OwnershipChange, owner_in, owner_of, update, absorb, change_in, room_states,
  handle_room_objects, is_registered,
}

-- The changes of one object.
abbrev pub of_object : ℕ → List OwnershipChange → List OwnershipChange
of_object id [] = []
of_object id (c ∷ cs) = if c.object_id == id then c ∷ of_object id cs else of_object id cs

-- The changes that an object goes through when these owners come one after the other.
abbrev pub walk : ℕ → ℤ → List ℤ → List OwnershipChange
walk id owner [] = []
walk id owner (next ∷ owners) =
    if eq_ℤ owner next
    then walk id owner owners
    else record { object_id = id; new_owner_client_no = next; previous_owner_client_no = owner }
      ∷ walk id next owners

walk_kept :
    (id : ℕ) (owner next : ℤ) (owners : List ℤ)
    → eq_ℤ owner next ≡ true
    → walk id owner (next ∷ owners) ≡ walk id next owners
walk_kept id owner next owners kept =
    rw kept (ap (λ o. walk id o owners) ((eq_ℤ_iff owner next).0 kept))

walk_moved :
    (id : ℕ) (owner next : ℤ) (owners : List ℤ)
    → eq_ℤ owner next ≡ false
    → walk id owner (next ∷ owners)
      ≡ record { object_id = id; new_owner_client_no = next; previous_owner_client_no = owner }
        ∷ walk id next owners
walk_moved id owner next owners moved = rw moved

abbrev pub last_owner : ℤ → List ℤ → ℤ
last_owner owner [] = owner
last_owner owner (next ∷ owners) = last_owner next owners

module _ {W : Type 0} where
  owner-absorb :
      (local : ℤ) (broadcast_time : ℕ) (state : RoomObjectState W) (entry : Entry W)
      → (absorb local broadcast_time state entry).state.owner_client_no ≡ pos state.owner_client_no
  unfolding absorb
  owner-absorb local broadcast_time state entry =
      if_cases (λ (e : Entry W). e.state.owner_client_no ≡ pos state.owner_client_no)
        (not (eq_ℤ (pos state.owner_client_no) local) || eq_ℤ local (pos 0)) refl refl

  -- The owners that the records of a broadcast name for one object, in their order.
  abbrev pub owners_named : ℕ → List (RoomObjectState W) → List ℤ
  owners_named id [] = []
  owners_named id (state ∷ states) =
      if state.object_id == id
      then pos state.owner_client_no ∷ owners_named id states
      else owners_named id states

  -- What a broadcast does to object `id`, from its entry before, the changes and its entry after.
  abbrev Walks :
      ℕ
      → Option (Entry W)
      → List (RoomObjectState W)
      → List OwnershipChange
      → Option (Entry W)
      → Type 0
  Walks id none states changes after = (of_object id changes ≡ []) × (after ≡ none)
  Walks id (some entry) states changes after =
      (of_object id changes ≡ walk id entry.state.owner_client_no (owners_named id states))
      × ((entry' : Entry W) × (after ≡ some entry')
          × (entry'.state.owner_client_no
              ≡ last_owner entry.state.owner_client_no (owners_named id states)))

  -- Changes of another object do not count.
  of_object-change_in :
      (id : ℕ) (state : RoomObjectState W) (found : Option (Entry W))
      (changes : List OwnershipChange)
      → (state.object_id == id) ≡ false
      → of_object id (change_in state found ++ changes) ≡ of_object id changes
  of_object-change_in id state none changes other = refl
  of_object-change_in id state (some entry) changes other = ground (arith, other)

  Walks-other :
      (id : ℕ) (state : RoomObjectState W) (states : List (RoomObjectState W))
      (before found after : Option (Entry W)) (changes : List OwnershipChange)
      → (state.object_id == id) ≡ false
      → Walks id before states changes after
      → Walks id before (state ∷ states) (change_in state found ++ changes) after
  Walks-other id state states none found after changes other h =
      (of_object-change_in id state found changes other ∙ h.0, h.1)
  Walks-other id state states (some before) found after changes other h =
      rw other (of_object-change_in id state found changes other ∙ h.0, h.1)

  -- A record of a registered object.
  Walks-own :
      (id : ℕ) (state : RoomObjectState W) (states : List (RoomObjectState W))
      (entry entry' : Entry W) (after : Option (Entry W)) (changes : List OwnershipChange)
      → (state.object_id == id) ≡ true
      → entry'.state.owner_client_no ≡ pos state.owner_client_no
      → Walks id (some entry') states changes after
      → Walks id (some entry) (state ∷ states) (change_in state (some entry) ++ changes) after
  Walks-own id state states entry entry' after changes is e h =
      let owner = entry.state.owner_client_no in
      let next = pos state.owner_client_no in
      let owners = owners_named id states in
      let (told, ends) =
        subst
          (λ o.
            (of_object id changes ≡ walk id o owners)
            × ((x : Entry W) × (after ≡ some x) × (x.state.owner_client_no ≡ last_owner o owners)))
          e h in
      elim (Bool-cases (eq_ℤ owner next)) [
        | inl kept ↦ rw (kept, is) (told ∙ sym (walk_kept id owner next owners kept), ends)
        | inr moved ↦
            let named = (==_iff state.object_id id).0 is in
            rw (moved, is)
              (
                (λ i.
                      record {
                        object_id = named i;
                        new_owner_client_no = next;
                        previous_owner_client_no = owner;
                      }
                      ∷ told i)
                    ∙ sym (walk_moved id owner next owners moved),
                ends,
              )
      ]

  Walks-step :
      (local : ℤ) (broadcast_time id : ℕ) (state : RoomObjectState W)
      (states : List (RoomObjectState W)) (found : Option (Entry W)) (objects : Dict ℕ (Entry W))
      (changes : List OwnershipChange) (after : Option (Entry W))
      → lookup state.object_id objects ≡ found
      → Walks id
          (lookup id (update (absorb local broadcast_time state) state.object_id found objects))
          states
          changes
          after
      → Walks id (lookup id objects) (state ∷ states) (change_in state found ++ changes) after
  Walks-step local broadcast_time id state states none objects changes after e h =
      elim (Bool-cases (state.object_id == id)) [
        | inl is ↦
            let missing : lookup id objects ≡ none =
              subst (λ i. lookup i objects ≡ none) ((==_iff state.object_id id).0 is) e in
            subst (λ o. Walks id o (state ∷ states) changes after) (sym missing)
              (subst (λ o. Walks id o states changes after) missing h)
        | inr other ↦ Walks-other id state states (lookup id objects) none after changes other h
      ]
  Walks-step local broadcast_time id state states (some entry) objects changes after e h =
      let entry' = absorb local broadcast_time state entry in
      let stored = lookup-insert state.object_id id entry' objects in
      elim (Bool-cases (state.object_id == id)) [
        | inl is ↦
            let there : lookup id objects ≡ some entry =
              subst (λ i. lookup i objects ≡ some entry) ((==_iff state.object_id id).0 is) e in
            let now : lookup id (insert state.object_id entry' objects) ≡ some entry' =
              rw is at stored in
            subst (λ o. Walks id o (state ∷ states) (change_in state (some entry) ++ changes) after)
              (sym there)
              (Walks-own id state states entry entry' after changes is
                (owner-absorb local broadcast_time state entry)
                (subst (λ o. Walks id o states changes after) now h))
        | inr other ↦
            let same : lookup id (insert state.object_id entry' objects) ≡ lookup id objects =
              rw other at stored in
            Walks-other id state states (lookup id objects) (some entry) after changes other
              (subst (λ o. Walks id o states changes after) same h)
      ]

  room_states-Walks :
      (local : ℤ) (broadcast_time : ℕ) (states : List (RoomObjectState W))
      (objects : Dict ℕ (Entry W)) (id : ℕ)
      → let (changes, objects') = room_states local broadcast_time states objects in
        Walks id (lookup id objects) states changes (lookup id objects')
  unfolding room_states
  room_states-Walks local broadcast_time [] objects id = start (lookup id objects)
    where
      start : (found : Option (Entry W)) → Walks id found [] [] found
      start none = (refl, refl)
      start (some entry) = (refl, (entry, refl, refl))
  room_states-Walks local broadcast_time (state ∷ states) objects id =
      Walks-step local broadcast_time id state states (lookup state.object_id objects) objects _ _
        refl
        (room_states-Walks local broadcast_time states
          (update (absorb local broadcast_time state) state.object_id
            (lookup state.object_id objects) objects)
          id)

  -- The ownership changes that a broadcast reports of an object are exactly the changes of owner
  -- that its records make one after the other, starting from the owner before, and the last record
  -- names the owner afterwards. An object that is not registered has none and stays unregistered,
  -- and one that is registered stays so.
  pub handle_room_objects-walk :
      (message : RoomObjectsMessage W) (m : ObjectManager W) (id : ℕ)
      → let (changes, m') = handle_room_objects message m in
        let owners = if is_registered id m then owners_named id message.objects else [] in
        (of_object id changes ≡ walk id (owner_of id m) owners)
        × (owner_of id m' ≡ last_owner (owner_of id m) owners)
        × (is_registered id m' ≡ is_registered id m)
  unfolding handle_room_objects owner_of is_registered
  handle_room_objects-walk message m id =
      let (changes, objects) =
        room_states m.local_client_no message.broadcast_time message.objects m.objects in
      outcome m.objects objects (lookup id m.objects) changes refl
        (room_states-Walks m.local_client_no message.broadcast_time message.objects m.objects id)
    where
      outcome :
          (before objects : Dict ℕ (Entry W)) (found : Option (Entry W))
          (changes : List OwnershipChange)
          → lookup id before ≡ found
          → Walks id found message.objects changes (lookup id objects)
          → let owners = if has id before then owners_named id message.objects else [] in
            (of_object id changes ≡ walk id (owner_in (lookup id before)) owners)
            × (owner_in (lookup id objects) ≡ last_owner (owner_in (lookup id before)) owners)
            × (has id objects ≡ has id before)
      outcome before objects none changes e (told, after) =
          rw (lookup-none id before e, e, after, lookup-none id objects after) (told, refl, refl)
      outcome before objects (some entry) changes e (told, (entry', after, last)) =
          rw (has-lookup id before entry e, e, after, has-lookup id objects entry' after)
            (told, last, refl)

-- ===== src/Core/Objects/Due.antt =====
-- The rules by which tick of src/core/object_sync_manager.cpp sends a pose, written out apart from
-- its loop, and that it keeps them.
use styly_net_sync_godot.Base.{
  ℕ, suc, ◌%◌, ◌^◌, ◌≡◌, ◌⊎◌, refl, sym, ◌∙◌, subst, true, false, not, ◌&&◌, ◌||◌, Bool, Option,
  none, some, List, if◌then◌else◌, inl, inr, Bool-cases, Option-cases,
}
use styly_net_sync_godot.Base.Int.{ℤ, pos, eq_ℤ, eq_ℤ_iff}
use styly_net_sync_godot.Base.Keys.{nat_key}
use styly_net_sync_godot.Base.Dict.{lookup}
use styly_net_sync_godot.Base.Ascending.{Ascending}
use styly_net_sync_godot.Protocol.Pose.Double.{Double, ◌⊖◌, ◌⊘◌, unit}
use styly_net_sync_godot.Protocol.Pose.Body.{PoseTransform}
use styly_net_sync_godot.Protocol.Pose.Objects.{serialize_object_pose}
use styly_net_sync_godot.Core.Objects.{
  Entry, ObjectManager, same_pose, poses_equal, send_interval, due_pose, object_payload, tick,
}
use styly_net_sync_godot.Core.Objects.Sending.{due_payload, after_tick, lookup-tick}

and_both : (a b : Bool) → (a && b) ≡ true → (a ≡ true) × (b ≡ true)
and_both true b h = (refl, h)
and_both false b h = cc

not_none : {A : Type 0} {a : A} → none ≡ some a → ⊥
not_none h = cc

module _ {W : Type 0} ⦃d : Double W⦄ where
  -- Two poses are equal as numbers.
  abbrev pub SamePose : PoseTransform W → PoseTransform W → Type 0
  SamePose a b =
      (d.eq a.position.x b.position.x ≡ true)
      × (d.eq a.position.y b.position.y ≡ true)
      × (d.eq a.position.z b.position.z ≡ true)
      × (d.eq a.rotation.x b.rotation.x ≡ true)
      × (d.eq a.rotation.y b.rotation.y ≡ true)
      × (d.eq a.rotation.z b.rotation.z ≡ true)
      × (d.eq a.rotation.w b.rotation.w ≡ true)

  -- A pose is the one that was sent last.
  abbrev pub Unchanged : PoseTransform W → Option (PoseTransform W) → Type 0
  Unchanged pose none = ⊥
  Unchanged pose (some last) = SamePose pose last

  -- The time between two poses: the rate is at least 0.5 a second.
  abbrev pub interval_for : W → W
  interval_for rate = unit ⊘ (if d.lt (d.decimal 5 1) rate then rate else d.decimal 5 1)

  -- A pose of an object is to be sent: the local client has a number and a sender and owns the
  -- object, an interval has passed, and the pose is a new one or a second has passed.
  pub record IsDue (now rate : W) (m : ObjectManager W) (entry : Entry W) (pose : PoseTransform W)
      : Type 0 where
    pub relays : m.relays ≡ true
    pub numbered : eq_ℤ m.local_client_no (pos 0) ≡ false
    pub owned : entry.state.owner_client_no ≡ m.local_client_no
    pub submitted : entry.local_pose ≡ some pose
    pub spaced : d.lt (now ⊖ entry.last_send_time) (interval_for rate) ≡ false
    pub fresh :
        ¬ (Unchanged pose entry.last_sent_pose × (d.lt (now ⊖ entry.last_send_time) unit ≡ true))

  -- What a tick does with one object, from its entry before to the payload and its entry after.
  abbrev pub Ticked :
      W → W → ObjectManager W → ℕ → Option (Entry W) → Option (List ℕ) → Option (Entry W) → Type 0
  Ticked now rate m id none sent after = (sent ≡ none) × (after ≡ none)
  Ticked now rate m id (some entry) sent after =
      ((pose : PoseTransform W) × IsDue now rate m entry pose
        × (sent
            ≡ some (
                serialize_object_pose (record {
                  device_id = m.local_device_id;
                  object_id = id;
                  pose_seq = suc entry.send_pose_seq % 2 ^ 16;
                  position = pose.position;
                  rotation = pose.rotation;
                })))
        × (after
            ≡ some (record entry {
              send_pose_seq = suc entry.send_pose_seq % 2 ^ 16;
              last_send_time = now;
              last_sent_pose = some pose;
            })))
      ⊎ ((¬ ((pose : PoseTransform W) × IsDue now rate m entry pose))
          × (sent ≡ none)
          × (after ≡ some entry))

  poses_equal_sound : (a b : PoseTransform W) → poses_equal a b ≡ true → SamePose a b
  unfolding poses_equal
  poses_equal_sound a b h =
      let h1 = and_both _ _ h in
      let h2 = and_both _ _ h1.1 in
      let h3 = and_both _ _ h2.1 in
      let h4 = and_both _ _ h3.1 in
      let h5 = and_both _ _ h4.1 in
      let h6 = and_both _ _ h5.1 in (h1.0, h2.0, h3.0, h4.0, h5.0, h6.0, h6.1)

  poses_equal_complete : (a b : PoseTransform W) → SamePose a b → poses_equal a b ≡ true
  unfolding poses_equal
  poses_equal_complete a b (px, py, pz, rx, ry, rz, rw_) = rw (px, py, pz, rx, ry, rz, rw_)

  same_pose_sound :
      (pose : PoseTransform W) (last : Option (PoseTransform W))
      → same_pose pose last ≡ true
      → Unchanged pose last
  same_pose_sound pose none h = cc
  same_pose_sound pose (some last) h = poses_equal_sound pose last h

  same_pose_complete :
      (pose : PoseTransform W) (last : Option (PoseTransform W))
      → Unchanged pose last
      → same_pose pose last ≡ true
  same_pose_complete pose none h = absurd h
  same_pose_complete pose (some last) h = poses_equal_complete pose last h

  due_pose-due :
      (local : ℤ) (now interval : W) (entry : Entry W) (mine : Option (PoseTransform W))
      (pose : PoseTransform W)
      → due_pose local now interval entry mine ≡ some pose
      → (entry.state.owner_client_no ≡ local)
        × (mine ≡ some pose)
        × (d.lt (now ⊖ entry.last_send_time) interval ≡ false)
        × ((same_pose pose entry.last_sent_pose && d.lt (now ⊖ entry.last_send_time) unit) ≡ false)
  unfolding due_pose
  due_pose-due local now interval entry none pose h = cc
  due_pose-due local now interval entry (some p) pose h =
      elim (Bool-cases (eq_ℤ entry.state.owner_client_no local)) [
        | inr other ↦ cc (rw other at h)
        | inl owned ↦ elim (Bool-cases (d.lt (now ⊖ entry.last_send_time) interval)) [
          | inl early ↦ cc (rw (owned, early) at h)
          | inr late ↦
              elim (Bool-cases
                (same_pose p entry.last_sent_pose && d.lt (now ⊖ entry.last_send_time) unit)) [
                  | inl stale ↦ cc (rw (owned, late, stale) at h)
                  | inr new ↦
                      let is : p ≡ pose = cc (rw (owned, late, new) at h) in
                      (
                        (eq_ℤ_iff entry.state.owner_client_no local).0 owned,
                        (λ i. some (is i)),
                        late,
                        subst
                            (λ q.
                              (same_pose q entry.last_sent_pose
                                && d.lt (now ⊖ entry.last_send_time) unit)
                              ≡ false)
                            is new,
                      )
                ]
        ]
      ]

  due_pose-ready :
      (local : ℤ) (now interval : W) (entry : Entry W) (mine : Option (PoseTransform W))
      (pose : PoseTransform W)
      → entry.state.owner_client_no ≡ local
      → mine ≡ some pose
      → d.lt (now ⊖ entry.last_send_time) interval ≡ false
      → (¬ (Unchanged pose entry.last_sent_pose × (d.lt (now ⊖ entry.last_send_time) unit ≡ true)))
      → due_pose local now interval entry mine ≡ some pose
  unfolding due_pose
  due_pose-ready local now interval entry mine pose owned is late fresh =
      subst (λ o. due_pose local now interval entry o ≡ some pose) (sym is)
        (rw ((eq_ℤ_iff entry.state.owner_client_no local).1 owned, late)
          (elim (Bool-cases (same_pose pose entry.last_sent_pose)) [
            | inr new ↦ rw new
            | inl same ↦ elim (Bool-cases (d.lt (now ⊖ entry.last_send_time) unit)) [
              | inr rested ↦ rw (same, rested)
              | inl soon ↦ absurd (fresh (same_pose_sound pose entry.last_sent_pose same, soon))
            ]
          ]))

  -- The loop's test is the rule.
  due_pose-IsDue :
      (now rate : W) (m : ObjectManager W) (entry : Entry W) (pose : PoseTransform W)
      → m.relays ≡ true
      → eq_ℤ m.local_client_no (pos 0) ≡ false
      → due_pose m.local_client_no now (send_interval rate) entry entry.local_pose ≡ some pose
      → IsDue now rate m entry pose
  unfolding send_interval
  due_pose-IsDue now rate m entry pose relays numbered h =
      let (owned, mine, late, new) =
        due_pose-due m.local_client_no now (interval_for rate) entry entry.local_pose pose h in
      record {
        relays = relays;
        numbered = numbered;
        owned = owned;
        submitted = mine;
        spaced = late;
        fresh = λ (same, soon).
            cc (rw (same_pose_complete pose entry.last_sent_pose same, soon) at new);
      }

  IsDue-due_pose :
      (now rate : W) (m : ObjectManager W) (entry : Entry W) (pose : PoseTransform W)
      → IsDue now rate m entry pose
      → due_pose m.local_client_no now (send_interval rate) entry entry.local_pose ≡ some pose
  unfolding send_interval
  IsDue-due_pose now rate m entry pose due =
      due_pose-ready m.local_client_no now (interval_for rate) entry entry.local_pose pose due.owned
        due.submitted due.spaced due.fresh

  Ticked-entry :
      (now rate : W) (m : ObjectManager W) (id : ℕ) (found : Option (Entry W))
      → m.relays ≡ true
      → eq_ℤ m.local_client_no (pos 0) ≡ false
      → Ticked now rate m id found
          (due_payload m.local_client_no m.local_device_id now (send_interval rate) id found)
          (after_tick m.local_client_no now (send_interval rate) found)
  unfolding object_payload
  Ticked-entry now rate m id none relays numbered = (refl, refl)
  Ticked-entry now rate m id (some entry) relays numbered =
      let due = due_pose m.local_client_no now (send_interval rate) entry entry.local_pose in
      elim (Option-cases due) [
        | inl e ↦ inr (
          (λ (pose, h). not_none (sym e ∙ IsDue-due_pose now rate m entry pose h)),
          rw (due_payload, e),
          rw (after_tick, e),
        )
        | inr (pose, e) ↦ inl (
          pose,
          due_pose-IsDue now rate m entry pose relays numbered e,
          rw (due_payload, e),
          rw (after_tick, e),
        )
      ]

  Ticked-idle :
      (now rate : W) (m : ObjectManager W) (id : ℕ) (found : Option (Entry W))
      → (eq_ℤ m.local_client_no (pos 0) || not m.relays) ≡ true
      → Ticked now rate m id found none found
  Ticked-idle now rate m id none idle = (refl, refl)
  Ticked-idle now rate m id (some entry) idle =
      inr ((λ (pose, h). cc (rw (h.numbered, h.relays) at idle)), refl, refl)

  tick-idle :
      (now rate : W) (m : ObjectManager W) (id : ℕ)
      → (eq_ℤ m.local_client_no (pos 0) || not m.relays) ≡ true
      → let (sent, m') = tick now rate m in
        Ticked now rate m id (lookup id m.objects) (lookup id sent) (lookup id m'.objects)
  unfolding tick lookup
  tick-idle now rate m id h = rw h (Ticked-idle now rate m id (lookup id m.objects) h)

  -- What a tick does with each id, if the ids are in order, by the rules alone: an id that is not
  -- registered has no payload and stays so. An object whose pose is due has the serialised pose
  -- handed over, with the next sequence number, and only its sequence number, the time of sending
  -- and the last sent pose change. An object without a pose that is due has none handed over and
  -- stays as it is. A pose is due when there are a client number and a sender, the client owns the
  -- object, the send interval has passed, and the pose differs from the last sent one or a second
  -- has passed.
  pub tick-Ticked :
      (now rate : W) (m : ObjectManager W) (id : ℕ)
      → Ascending m.objects
      → let (sent, m') = tick now rate m in
        Ticked now rate m id (lookup id m.objects) (lookup id sent) (lookup id m'.objects)
  tick-Ticked now rate m id ascending = elim (Bool-cases (eq_ℤ m.local_client_no (pos 0))) [
    | inl none_yet ↦ tick-idle now rate m id (rw none_yet)
    | inr numbered ↦ elim (Bool-cases m.relays) [
      | inr unset ↦ tick-idle now rate m id (rw (numbered, unset))
      | inl relays ↦
          let (sent, after) = lookup-tick now rate m id (numbered, relays) ascending in
          subst
            (λ s.
              Ticked now rate m id (lookup id m.objects) s (lookup id (tick now rate m).1.objects))
            (sym sent)
            (subst
              (λ a.
                Ticked now rate m id (lookup id m.objects)
                  (due_payload m.local_client_no m.local_device_id now (send_interval rate) id
                    (lookup id m.objects))
                  a)
              (sym after) (Ticked-entry now rate m id (lookup id m.objects) relays numbered))
    ]
  ]

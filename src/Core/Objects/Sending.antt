-- ===== src/Core/Objects/Sending.antt =====
-- When tick of src/core/object_sync_manager.cpp sends a pose, and what it sends.
use styly_net_sync_godot.Base.{
  ℕ, ◌≡◌, refl, sym, ap, ◌∙◌, true, false, not, ◌||◌, Option, none, some, List, [], ◌∷◌, ◌++◌, ◌==◌,
  if◌then◌else◌, arith, inl, inr, Option-cases,
}
use mathlib.Core.Option.{some-injective}
use styly_net_sync_godot.Base.{if_cases}
use styly_net_sync_godot.Base.Int.{ℤ, pos, eq_ℤ, eq_ℤ_iff}
use styly_net_sync_godot.Base.Keys.{nat_key}
use styly_net_sync_godot.Base.Dict.{Dict, lookup, has}
use styly_net_sync_godot.Base.Ascending.{Above, Ascending, has-Above}
use styly_net_sync_godot.Protocol.Pose.Double.{Double, ◌⊖◌}
use styly_net_sync_godot.Protocol.Pose.Body.{PoseTransform}
use styly_net_sync_godot.Core.Objects.{
  Entry, ObjectManager, Transforms, send_interval, due_pose, sent_entry, object_payload, send_entry,
  tick_entries, tick,
}

refused {ℓ} : {A : Type ℓ} {a : A} → none ≡ some a → ⊥
refused h = cc

module _ {W : Type 0} ⦃d : Double W⦄ where
  -- What tick hands over for one object.
  abbrev pub due_payload : ℤ → List ℕ → W → W → ℕ → Option (Entry W) → Option (List ℕ)
  due_payload local device_id now interval object_id none = none
  due_payload local device_id now interval object_id (some entry) =
      elim (due_pose local now interval entry entry.local_pose) [
        | none ↦ none
        | some pose ↦ some (object_payload device_id object_id entry pose)
      ]

  -- What becomes of the entry of one object.
  abbrev pub after_tick : ℤ → W → W → Option (Entry W) → Option (Entry W)
  after_tick local now interval none = none
  after_tick local now interval (some entry) =
      elim (due_pose local now interval entry entry.local_pose) [
        | none ↦ some entry
        | some pose ↦ some (sent_entry now entry pose)
      ]

  send_entry-cases :
      (device_id : List ℕ) (now : W) (k : ℕ) (entry : Entry W) (due : Option (PoseTransform W))
      (id : ℕ) (more : Transforms)
      → lookup id ((send_entry device_id now k entry due).0 ++ more) ≡ (
          if k == id
          then elim due [
            | none ↦ lookup id more
            | some pose ↦ some (object_payload device_id k entry pose)
          ]
          else lookup id more)
  unfolding lookup
  send_entry-cases device_id now k entry none id more = ground arith
  send_entry-cases device_id now k entry (some pose) id more = ground arith

  lookup-tick_none :
      (local : ℤ) (device_id : List ℕ) (now interval : W) (objects : Dict ℕ (Entry W)) (id : ℕ)
      → has id objects ≡ false
      → lookup id (tick_entries local device_id now interval objects).0 ≡ none
  unfolding tick_entries has lookup
  lookup-tick_none local device_id now interval [] id h = refl
  lookup-tick_none local device_id now interval ((k, entry) ∷ rest) id h =
      rw
        (send_entry-cases device_id now k entry (due_pose local now interval entry entry.local_pose)
          id (tick_entries local device_id now interval rest).0)
        (ground (arith, lookup-tick_none local device_id now interval rest id))

  -- The loop of tick treats every object by itself.
  pub lookup-tick_entries :
      (local : ℤ) (device_id : List ℕ) (now interval : W) (objects : Dict ℕ (Entry W)) (id : ℕ)
      → Ascending objects
      → let (sent, objects') = tick_entries local device_id now interval objects in
        (lookup id sent ≡ due_payload local device_id now interval id (lookup id objects))
        × (lookup id objects' ≡ after_tick local now interval (lookup id objects))
  unfolding tick_entries lookup
  lookup-tick_entries local device_id now interval [] id h = (refl, refl)
  lookup-tick_entries local device_id now interval ((k, entry) ∷ rest) id h =
      rw
        (send_entry-cases device_id now k entry (due_pose local now interval entry entry.local_pose)
          id (tick_entries local device_id now interval rest).0)
        (elim (Option-cases (due_pose local now interval entry entry.local_pose)) [
          | inl e ↦ rw e (
              ground (
                arith,
                lookup-tick_entries local device_id now interval rest id h.1,
                lookup-tick_none local device_id now interval rest k (has-Above k rest h.0),
              ))
          | inr (pose, e) ↦ rw e (
              ground (
                arith,
                lookup-tick_entries local device_id now interval rest id h.1,
                lookup-tick_none local device_id now interval rest k (has-Above k rest h.0),
              ))
        ])

  tick_entries-Above :
      (local : ℤ) (device_id : List ℕ) (now interval : W) (objects : Dict ℕ (Entry W)) (k : ℕ)
      → Above k objects
      → Above k (tick_entries local device_id now interval objects).1
  unfolding tick_entries
  tick_entries-Above local device_id now interval [] k h = tt
  tick_entries-Above local device_id now interval ((j, entry) ∷ rest) k h =
      (h.0, tick_entries-Above local device_id now interval rest k h.1)

  tick_entries-Ascending :
      (local : ℤ) (device_id : List ℕ) (now interval : W) (objects : Dict ℕ (Entry W))
      → Ascending objects
      → Ascending (tick_entries local device_id now interval objects).1
  unfolding tick_entries
  tick_entries-Ascending local device_id now interval [] h = tt
  tick_entries-Ascending local device_id now interval ((k, entry) ∷ rest) h = (
    tick_entries-Above local device_id now interval rest k h.0,
    tick_entries-Ascending local device_id now interval rest h.1,
  )

  -- Both conditions under which tick does anything.
  abbrev pub IsActive : ObjectManager W → Type 0
  IsActive m = (eq_ℤ m.local_client_no (pos 0) ≡ false) × (m.relays ≡ true)

  -- With a client number, a sender and the ids in order, a tick treats every object by itself: it
  -- hands over the payload of an object exactly when that object's pose is due, and only then
  -- counts it as sent.
  pub lookup-tick :
      (now rate : W) (m : ObjectManager W) (id : ℕ)
      → IsActive m
      → Ascending m.objects
      → let (sent, m') = tick now rate m in
        let interval = send_interval rate in
        (lookup id sent
          ≡ due_payload m.local_client_no m.local_device_id now interval id (lookup id m.objects))
        × (lookup id m'.objects ≡ after_tick m.local_client_no now interval (lookup id m.objects))
  unfolding tick
  lookup-tick now rate m id (active, relays) h =
      rw (active, relays)
        (lookup-tick_entries m.local_client_no m.local_device_id now (send_interval rate) m.objects
          id h)

  due_pose-owned :
      (local : ℤ) (now interval : W) (entry : Entry W) (mine : Option (PoseTransform W))
      (pose : PoseTransform W)
      → due_pose local now interval entry mine ≡ some pose
      → (entry.state.owner_client_no ≡ local)
        × (mine ≡ some pose)
        × (d.lt (now ⊖ entry.last_send_time) interval ≡ false)
  unfolding due_pose
  due_pose-owned local now interval entry none pose h = cc
  due_pose-owned local now interval entry (some p) pose h =
      ground (arith, h, eq_ℤ_iff entry.state.owner_client_no local)

  due_payload-owned :
      (local : ℤ) (device_id : List ℕ) (now interval : W) (id : ℕ) (found : Option (Entry W))
      (payload : List ℕ)
      → due_payload local device_id now interval id found ≡ some payload
      → (entry : Entry W) × (pose : PoseTransform W) × (found ≡ some entry)
        × (entry.state.owner_client_no ≡ local)
        × (entry.local_pose ≡ some pose)
        × (d.lt (now ⊖ entry.last_send_time) interval ≡ false)
        × (payload ≡ object_payload device_id id entry pose)
  due_payload-owned local device_id now interval id none payload h = cc
  due_payload-owned local device_id now interval id (some entry) payload h =
      elim (Option-cases (due_pose local now interval entry entry.local_pose)) [
        | inl e ↦ absurd (refused (rw (due_payload, e) at h))
        | inr (pose, e) ↦
            let (owned, mine, late) =
              due_pose-owned local now interval entry entry.local_pose pose e in
            (
              entry,
              pose,
              refl,
              owned,
              mine,
              late,
              sym (some-injective _ _ (rw (due_payload, e) at h)),
            )
      ]

  -- Whatever a tick hands over, is the current pose of a
  -- registered object that the local client owns, with the next sequence number, and no earlier
  -- than the send interval after the last.
  pub tick-owned :
      (now rate : W) (m : ObjectManager W) (id : ℕ) (payload : List ℕ)
      → IsActive m
      → Ascending m.objects
      → lookup id (tick now rate m).0 ≡ some payload
      → (entry : Entry W) × (pose : PoseTransform W) × (lookup id m.objects ≡ some entry)
        × (entry.state.owner_client_no ≡ m.local_client_no)
        × (entry.local_pose ≡ some pose)
        × (d.lt (now ⊖ entry.last_send_time) (send_interval rate) ≡ false)
        × (payload ≡ object_payload m.local_device_id id entry pose)
  tick-owned now rate m id payload active h sent =
      due_payload-owned m.local_client_no m.local_device_id now (send_interval rate) id
        (lookup id m.objects) payload (sym (lookup-tick now rate m id active h).0 ∙ sent)

  due_pose-early :
      (local : ℤ) (now interval : W) (entry : Entry W) (mine : Option (PoseTransform W))
      → d.lt (now ⊖ entry.last_send_time) interval ≡ true
      → due_pose local now interval entry mine ≡ none
  unfolding due_pose
  due_pose-early local now interval entry none h = refl
  due_pose-early local now interval entry (some pose) h = ground (arith, h)

  after_tick-early :
      (local local' : ℤ) (device_id device_id' : List ℕ) (now now' interval : W) (id : ℕ)
      (found : Option (Entry W)) (payload : List ℕ)
      → due_payload local device_id now interval id found ≡ some payload
      → d.lt (now' ⊖ now) interval ≡ true
      → due_payload local' device_id' now' interval id (after_tick local now interval found) ≡ none
  after_tick-early local local' device_id device_id' now now' interval id none payload h early =
      refl
  after_tick-early local local' device_id device_id' now now' interval id (some entry) payload h
        early =
      elim (Option-cases (due_pose local now interval entry entry.local_pose)) [
        | inl e ↦ absurd (refused (rw (due_payload, e) at h))
        | inr (pose, e) ↦
            rw
              (
                after_tick,
                due_payload,
                e,
                due_pose-early local' now' interval (sent_entry now entry pose) entry.local_pose
                    early,
              )
              refl
      ]

  tick-IsActive : (now rate : W) (m : ObjectManager W) → IsActive m → IsActive (tick now rate m).1
  unfolding tick
  tick-IsActive now rate m active =
      if_cases (λ (r : Transforms × ObjectManager W). IsActive r.1)
        (eq_ℤ m.local_client_no (pos 0) || not m.relays) active active

  tick-Ascending :
      (now rate : W) (m : ObjectManager W)
      → Ascending m.objects
      → Ascending (tick now rate m).1.objects
  unfolding tick
  tick-Ascending now rate m h =
      if_cases (λ (r : Transforms × ObjectManager W). Ascending r.1.objects)
        (eq_ℤ m.local_client_no (pos 0) || not m.relays) h
        (tick_entries-Ascending m.local_client_no m.local_device_id now (send_interval rate)
          m.objects h)

  -- Two ticks less than a send interval apart never both send a pose of the same object.
  pub tick-spaced :
      (now now' rate : W) (m : ObjectManager W) (id : ℕ) (payload : List ℕ)
      → IsActive m
      → Ascending m.objects
      → lookup id (tick now rate m).0 ≡ some payload
      → d.lt (now' ⊖ now) (send_interval rate) ≡ true
      → lookup id (tick now' rate (tick now rate m).1).0 ≡ none
  tick-spaced now now' rate m id payload active h sent early =
      let m' = (tick now rate m).1 in
      (lookup-tick now' rate m' id (tick-IsActive now rate m active)
        (tick-Ascending now rate m h)).0
      ∙ ap (due_payload m'.local_client_no m'.local_device_id now' (send_interval rate) id)
          (lookup-tick now rate m id active h).1
      ∙ after_tick-early m.local_client_no m'.local_client_no m.local_device_id m'.local_device_id
          now now' (send_interval rate) id (lookup id m.objects) payload
          (sym (lookup-tick now rate m id active h).0 ∙ sent) early

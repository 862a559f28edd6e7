-- ===== src/Core/Client/PosePace.antt =====
-- How often send_local_pose_if_due of src/core/netsync_client.cpp sends.
use styly_net_sync_godot.Base.{suc, ◌≡◌, refl, Bool, true, false, Option, none, some, arith, length}
use styly_net_sync_godot.Protocol.Pose.Double.{Double, ◌⊖◌}
use styly_net_sync_godot.Protocol.Pose.Body.{ClientPoseBody}
use styly_net_sync_godot.Core.Objects.{send_interval}
use styly_net_sync_godot.Core.Client.{Client}
use styly_net_sync_godot.Core.Client.Poll.{
  PoseStep, too_early, stay_quiet, send_now, pose_step, take_step, send_pose, outgoing_body,
  send_local_pose_if_due,
}

module _ {W : Type 0} ⦃d : Double W⦄ where
  -- A call that adds a command leaves its time behind.
  abbrev Stamps : W → Client W → Client W → Type 0
  Stamps now c c' =
      length c'.commands ≡ suc (length c.commands)
      → (c'.last_pose_send_time ≡ now) × (c'.config ≡ c.config)

  take_step-Stamps :
      (step : PoseStep) (now : W) (body : ClientPoseBody W) (c : Client W)
      → Stamps now c (take_step step now body c)
  take_step-Stamps too_early now body c h = absurd (omega arith)
  take_step-Stamps stay_quiet now body c h = (refl, refl)
  take_step-Stamps send_now now body c h = (refl, refl)

  send_pose-Stamps :
      (now : W) (body : Option (ClientPoseBody W)) (c : Client W)
      → Stamps now c (send_pose now body c)
  unfolding send_pose
  send_pose-Stamps now none c h = absurd (omega arith)
  send_pose-Stamps now (some body) c h = take_step-Stamps (pose_step now body c) now body c h

  send_local_pose-Stamps :
      (now : W) (up : Bool) (c : Client W) → Stamps now c (send_local_pose_if_due now up c)
  unfolding send_local_pose_if_due
  send_local_pose-Stamps now false c h = absurd (omega arith)
  send_local_pose-Stamps now true c h = send_pose-Stamps now (outgoing_body c) c h

  pose_step-early :
      (now : W) (body : ClientPoseBody W) (c : Client W)
      → d.lt (now ⊖ c.last_pose_send_time) (send_interval c.config.transform_send_rate) ≡ true
      → pose_step now body c ≡ too_early
  unfolding pose_step
  pose_step-early now body c h = rw h refl

  send_pose-early :
      (now : W) (body : Option (ClientPoseBody W)) (c : Client W)
      → d.lt (now ⊖ c.last_pose_send_time) (send_interval c.config.transform_send_rate) ≡ true
      → send_pose now body c ≡ c
  unfolding send_pose
  send_pose-early now none c h = refl
  send_pose-early now (some body) c h = rw (pose_step-early now body c h) refl

  send_local_pose-early :
      (now : W) (up : Bool) (c : Client W)
      → d.lt (now ⊖ c.last_pose_send_time) (send_interval c.config.transform_send_rate) ≡ true
      → send_local_pose_if_due now up c ≡ c
  unfolding send_local_pose_if_due
  send_local_pose-early now false c h = refl
  send_local_pose-early now true c h = send_pose-early now (outgoing_body c) c h

  -- After a call that handed a pose to the transport, a call less than a send interval later
  -- changes nothing at all, whatever pose was set in between.
  pub send_local_pose-spaced :
      (now now' : W) (up up' : Bool) (c : Client W) (next : Option (ClientPoseBody W))
      → let c' = send_local_pose_if_due now up c in
        length c'.commands ≡ suc (length c.commands)
        → d.lt (now' ⊖ now) (send_interval c.config.transform_send_rate) ≡ true
        → send_local_pose_if_due now' up' (record c' { local_pose = next })
          ≡ record c' { local_pose = next }
  send_local_pose-spaced now now' up up' c next sent early =
      let c' = send_local_pose_if_due now up c in
      let (stamp, config) = send_local_pose-Stamps now up c sent in
      send_local_pose-early now' up' (record c' { local_pose = next }) (rw (stamp, config) early)

-- ===== src/Core/Client/Rooms.antt =====
-- What process_room_pose of src/core/netsync_client.cpp keeps of a room snapshot.
use styly_net_sync_godot.Base.{
  ℕ, ◌≡◌, refl, ap, ◌∙◌, Bool, true, false, not, ◌&&◌, Option, none, some, List, [], ◌∷◌,
  if◌then◌else◌, inl, inr, Bool-cases,
}
use styly_net_sync_godot.Base.Int.{ℤ, pos, eq_ℤ}
use styly_net_sync_godot.Base.Keys.{int_key, bytes_eq}
use styly_net_sync_godot.Base.Dict.{Dict, lookup, lookup-insert}
use styly_net_sync_godot.Protocol.Pose.Messages.{
  deserialize_room_pose, RoomPoseClient, RoomPoseMessage,
}
use styly_net_sync_godot.Protocol.Pose.Double.{Double}
use styly_net_sync_godot.Core.Client.{Client, RemoteClientPose}
use styly_net_sync_godot.Core.Client.Dispatch.{room_clients, on_room_pose, process_room_pose}

and_false : (b : Bool) → (b && false) ≡ false
and_false true = refl
and_false false = refl

and_true : (b : Bool) → (b && true) ≡ b
and_true true = refl
and_true false = refl

and_not : (b : Bool) → (b && not b) ≡ false
and_not true = refl
and_not false = refl

module _ {W : Type 0} where
  -- The last record of a client in a snapshot.
  abbrev pub last_pose :
      ℤ
      → ℕ
      → ℤ
      → List (RoomPoseClient W)
      → Option (RemoteClientPose W)
      → Option (RemoteClientPose W)
  last_pose local broadcast_time client_no [] found = found
  last_pose local broadcast_time client_no (client ∷ clients) found =
      last_pose local broadcast_time client_no clients (
        if eq_ℤ (pos client.client_no) client_no
          && not (eq_ℤ (pos client.client_no) local && not (eq_ℤ local (pos 0)))
        then some (record {
          client_no = pos client.client_no;
          pose_time = client.pose_time;
          broadcast_time = broadcast_time;
          body = client.body;
        })
        else found)

  room_clients-last_pose :
      (local : ℤ) (broadcast_time : ℕ) (clients : List (RoomPoseClient W))
      (poses : Dict ℤ (RemoteClientPose W)) (client_no : ℤ)
      → lookup client_no (room_clients local broadcast_time clients poses).1
        ≡ last_pose local broadcast_time client_no clients (lookup client_no poses)
  unfolding room_clients
  room_clients-last_pose local broadcast_time [] poses client_no = refl
  room_clients-last_pose local broadcast_time (client ∷ clients) poses client_no =
      elim (Bool-cases (eq_ℤ (pos client.client_no) local && not (eq_ℤ local (pos 0)))) [
        | inl own ↦
            rw (own, and_false (eq_ℤ (pos client.client_no) client_no))
              (room_clients-last_pose local broadcast_time clients poses client_no)
        | inr other ↦
            rw (other, and_true (eq_ℤ (pos client.client_no) client_no))
              (room_clients-last_pose local broadcast_time clients _ client_no
                ∙ ap (last_pose local broadcast_time client_no clients)
                    (lookup-insert (pos client.client_no) client_no _ poses))
      ]

  last_pose-own :
      (local : ℤ) (broadcast_time : ℕ) (clients : List (RoomPoseClient W))
      → eq_ℤ local (pos 0) ≡ false
      → last_pose local broadcast_time local clients none ≡ none
  last_pose-own local broadcast_time [] h = refl
  last_pose-own local broadcast_time (client ∷ clients) h =
      rw
        (
          h,
          and_true (eq_ℤ (pos client.client_no) local),
          and_not (eq_ℤ (pos client.client_no) local),
        )
        (last_pose-own local broadcast_time clients h)

module _ {W : Type 0} ⦃d : Double W⦄ where
  -- After a snapshot of the client's own room, the remote poses are the last record of every other
  -- client in it, with the broadcast's time, and of nobody else; a client that has a number never
  -- has its own.
  pub process_room_pose-poses :
      (payload : List ℕ) (message : RoomPoseMessage W) (c : Client W) (client_no : ℤ)
      → deserialize_room_pose payload ≡ some message
      → bytes_eq message.room_id c.config.room_id ≡ true
      → let local = c.mapping.local_client_no in
        let c' = (process_room_pose payload c).1 in
        (lookup client_no c'.remote_poses
          ≡ last_pose local message.broadcast_time client_no message.clients none)
        × (eq_ℤ local (pos 0) ≡ false → lookup local c'.remote_poses ≡ none)
  unfolding process_room_pose on_room_pose lookup
  process_room_pose-poses payload message c client_no e room =
      let local = c.mapping.local_client_no in
      let found = room_clients-last_pose local message.broadcast_time message.clients [] in
      rw (e, room)
        (
          found client_no,
          (λ h. found local ∙ last_pose-own local message.broadcast_time message.clients h),
        )

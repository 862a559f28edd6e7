-- ===== src/Core/Client/Dispatch.antt =====
-- What NetSyncClient of src/core/netsync_client.cpp does with a received message: the decoding, the
-- manager that takes it, and the events. `format_number` is how JSON numbers are printed.
use styly_net_sync_godot.Base.{
  ℕ, Bool, true, false, not, ◌&&◌, Option, none, some, List, [], ◌∷◌, ◌++◌, map, ◌==◌,
  if◌then◌else◌,
}
use styly_net_sync_godot.Base.Int.{ℤ, pos, eq_ℤ}
use styly_net_sync_godot.Base.Keys.{int_key, bytes_eq}
use styly_net_sync_godot.Base.Dict.{Dict, insert}
use styly_net_sync_godot.Protocol.Begin.{
  msg_device_id_mapping, msg_rpc, msg_global_var_sync, msg_client_var_sync, msg_room_pose,
  msg_room_objects, msg_object_ownership_changed, msg_object_ownership_rejected, peek_message_type,
}
use styly_net_sync_godot.Protocol.Session.{
  RpcMessage, deserialize_rpc, DeviceIdMappingMessage, deserialize_device_id_mapping,
}
use styly_net_sync_godot.Protocol.Variables.{
  GlobalVarSyncMessage, deserialize_global_var_sync, ClientVarSyncMessage,
  deserialize_client_var_sync,
}
use styly_net_sync_godot.Protocol.Ownership.{
  ObjectOwnershipChangedMessage, deserialize_object_ownership_changed,
  ObjectOwnershipRejectedMessage, deserialize_object_ownership_rejected,
}
use styly_net_sync_godot.Protocol.Pose.Double.{Double}
use styly_net_sync_godot.Protocol.Pose.Messages.{
  RoomPoseClient, RoomPoseMessage, deserialize_room_pose,
}
use styly_net_sync_godot.Protocol.Pose.Objects.{RoomObjectsMessage, deserialize_room_objects}
use styly_net_sync_godot.Core.Json.Parser.{decode_json_string_array}
use styly_net_sync_godot.Core.Mapping.{ApplyResult, apply, update_presence, device_id_for}
use styly_net_sync_godot.Core.Variables.Sync.{handle_global_sync, handle_client_sync}
use styly_net_sync_godot.Core.Objects.{
  handle_room_objects, handle_ownership_changed, handle_ownership_rejected,
}
use styly_net_sync_godot.Core.Client.{
  Client, Step, Event, malformed, not_an_array, rpc_received, server_version, client_no_assigned,
  global_variable_changed, client_variable_changed, ownership_changed, ownership_rejected,
  avatar_connected, avatar_disconnected, RemoteClientPose, push_log, identify,
}

abbrev version_event : ApplyResult → Bool → List Event
version_event result true = []
version_event result false =
    server_version result.server_version_major result.server_version_minor
      result.server_version_patch
    ∷ []

abbrev assigned_event : ApplyResult → List Event
assigned_event result =
    if result.local_client_no_changed then client_no_assigned result.local_client_no ∷ [] else []

module _ {W : Type 0} where
  -- A message that does not decode is logged, and changes nothing else.
  abbrev pub refuse : ℕ → Client W → Step W
  refuse message_type c = ([], push_log (malformed message_type) c)

  unfoldable pub on_mapping : Option DeviceIdMappingMessage → Client W → Step W
  unfolding identify
  on_mapping none c = refuse msg_device_id_mapping c
  on_mapping (some message) c =
      let (result, mapping) = apply message c.mapping in
      (
        version_event result c.version_checked ++ assigned_event result,
        record (identify mapping.local_client_no (record c { mapping = mapping })) {
          version_checked = true;
        },
      )

  abbrev deliver_rpc : RpcMessage → Option (List (List ℕ)) → Client W → Step W
  deliver_rpc message (some args) c =
      (rpc_received (pos message.sender_client_no) message.function_name args ∷ [], c)
  deliver_rpc message none c = (
    rpc_received (pos message.sender_client_no) message.function_name [] ∷ [],
    push_log (not_an_array message.function_name) c,
  )

  unfoldable pub on_rpc : (List ℕ → List ℕ) → Option RpcMessage → Client W → Step W
  on_rpc format_number none c = refuse msg_rpc c
  on_rpc format_number (some message) c =
      deliver_rpc message (decode_json_string_array format_number message.arguments_json) c

  unfoldable pub on_global_sync : Option GlobalVarSyncMessage → Client W → Step W
  on_global_sync none c = refuse msg_global_var_sync c
  on_global_sync (some message) c =
      let (m, changes) = handle_global_sync message c.variables in
      (map global_variable_changed changes, record c { variables = m })

  unfoldable pub on_client_sync : Option ClientVarSyncMessage → Client W → Step W
  on_client_sync none c = refuse msg_client_var_sync c
  on_client_sync (some message) c =
      let (m, changes) = handle_client_sync message c.variables in
      (map client_variable_changed changes, record c { variables = m })

  unfoldable pub on_ownership_rejected : Option ObjectOwnershipRejectedMessage → Client W → Step W
  on_ownership_rejected none c = refuse msg_object_ownership_rejected c
  on_ownership_rejected (some message) c =
      (ownership_rejected (handle_ownership_rejected message) ∷ [], c)

  -- The loop of process_room_pose: who is alive, in order, and the poses.
  unfoldable pub room_clients :
      ℤ
      → ℕ
      → List (RoomPoseClient W)
      → Dict ℤ (RemoteClientPose W)
      → List ℤ × Dict ℤ (RemoteClientPose W)
  room_clients local broadcast_time [] next_poses = ([], next_poses)
  room_clients local broadcast_time (client ∷ clients) next_poses =
      let client_no = pos client.client_no in
      let pose : RemoteClientPose W = record {
        client_no = client_no;
        pose_time = client.pose_time;
        broadcast_time = broadcast_time;
        body = client.body;
      } in
      let skipped = room_clients local broadcast_time clients next_poses in
      let (alive, poses) =
        room_clients local broadcast_time clients (insert client_no pose next_poses) in
      if eq_ℤ client_no local && not (eq_ℤ local (pos 0))
      then skipped
      else (client_no ∷ alive, poses)

  unfoldable pub on_room_pose : Option (RoomPoseMessage W) → Client W → Step W
  unfolding room_clients
  on_room_pose none c = refuse msg_room_pose c
  on_room_pose (some message) c =
      if not (bytes_eq message.room_id c.config.room_id)
      then ([], c)
      else let (alive, poses) =
          room_clients c.mapping.local_client_no message.broadcast_time message.clients [] in
        let (connected, gone, mapping) = update_presence alive c.mapping in
        (
          map (λ client_no. avatar_connected client_no (device_id_for client_no mapping)) connected
              ++ map avatar_disconnected gone,
          record c {
            last_room_broadcast_time = message.broadcast_time;
            remote_poses = poses;
            mapping = mapping;
          },
        )

  unfoldable pub on_room_objects : Option (RoomObjectsMessage W) → Client W → Step W
  on_room_objects none c = refuse msg_room_objects c
  on_room_objects (some message) c =
      let (changes, objects) = handle_room_objects message c.objects in
      (map ownership_changed changes, record c { objects = objects })

module _ {W : Type 0} ⦃d : Double W⦄ where
  unfoldable pub on_ownership_changed : Option ObjectOwnershipChangedMessage → Client W → Step W
  on_ownership_changed none c = refuse msg_object_ownership_changed c
  on_ownership_changed (some message) c =
      let (change, objects) = handle_ownership_changed message c.objects in
      (ownership_changed change ∷ [], record c { objects = objects })

  -- The types without a case are ignored.
  unfoldable pub process_control_payload : (List ℕ → List ℕ) → List ℕ → Client W → Step W
  unfolding on_mapping on_rpc on_global_sync on_client_sync on_ownership_changed
      on_ownership_rejected peek_message_type
  process_control_payload format_number payload c =
      let type = peek_message_type payload in
      if type == msg_device_id_mapping
      then on_mapping (deserialize_device_id_mapping payload) c
      else if type == msg_rpc
      then on_rpc format_number (deserialize_rpc payload) c
      else if type == msg_global_var_sync
      then on_global_sync (deserialize_global_var_sync payload) c
      else if type == msg_client_var_sync
      then on_client_sync (deserialize_client_var_sync payload) c
      else if type == msg_object_ownership_changed
      then on_ownership_changed (deserialize_object_ownership_changed payload) c
      else if type == msg_object_ownership_rejected
      then on_ownership_rejected (deserialize_object_ownership_rejected payload) c
      else ([], c)

  unfoldable pub process_room_pose : List ℕ → Client W → Step W
  unfolding on_room_pose
  process_room_pose payload c = on_room_pose (deserialize_room_pose payload) c

  unfoldable pub process_room_objects : List ℕ → Client W → Step W
  unfolding on_room_objects
  process_room_objects payload c = on_room_objects (deserialize_room_objects payload) c

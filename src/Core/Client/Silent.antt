-- ===== src/Core/Client/Silent.antt =====
-- The parts of poll in src/core/netsync_client.cpp that leave `ready_fired` alone.
use styly_net_sync_godot.Base.{
  ℕ, ◌≡◌, refl, ◌∙◌, inl, inr, not, ◌&&◌, Option, none, some, List, [], ◌∷◌, ◌==◌, if_cases,
  Option-cases, length,
}
use styly_net_sync_godot.Base.Int.{ℤ, pos}
use styly_net_sync_godot.Base.Keys.{bytes_eq}
use styly_net_sync_godot.Protocol.Begin.{
  peek_message_type, msg_device_id_mapping, msg_rpc, msg_global_var_sync, msg_client_var_sync,
  msg_object_ownership_changed, msg_object_ownership_rejected,
}
use styly_net_sync_godot.Protocol.Session.{RpcMessage, DeviceIdMappingMessage}
use styly_net_sync_godot.Protocol.Variables.{GlobalVarSyncMessage, ClientVarSyncMessage}
use styly_net_sync_godot.Protocol.Ownership.{
  ObjectOwnershipChangedMessage, ObjectOwnershipRejectedMessage,
}
use styly_net_sync_godot.Protocol.Pose.Double.{Double}
use styly_net_sync_godot.Protocol.Pose.Messages.{RoomPoseMessage, deserialize_room_pose}
use styly_net_sync_godot.Protocol.Pose.Objects.{RoomObjectsMessage, deserialize_room_objects}
use styly_net_sync_godot.Core.Json.Parser.{decode_json_string_array}
use styly_net_sync_godot.Core.Client.{
  Client, Step, PendingNotification, connected_note, error_note, log_note, discovered_note,
  ConnectionState, connected, synchronizing, error, same_state, set_state, begin_transport, quietly,
  identify, push_log, ◌▸◌,
}
use styly_net_sync_godot.Core.Client.Dispatch.{
  on_mapping, on_rpc, on_global_sync, on_client_sync, on_ownership_changed, on_ownership_rejected,
  on_room_pose, on_room_objects, process_control_payload, process_room_pose, process_room_objects,
}
use styly_net_sync_godot.Core.Client.Poll.{
  Instant, notify, notify_all, drain_internal_events, greet, enqueue_hello, when_some, process_all,
  drain_inbound, flush_outbound, work,
}
use styly_net_sync_godot.Core.Client.Timeout.{flush_outbound-fired}

module _ {W : Type 0} where
  -- A step that leaves `ready_fired` alone.
  abbrev pub Silent : Client W → Step W → Type 0
  Silent c (events, c') = c'.ready_fired ≡ c.ready_fired

  set_state-Silent : (s : ConnectionState) (c : Client W) → Silent c (set_state s c)
  unfolding set_state
  set_state-Silent s c = if_cases (Silent c) (same_state c.state s) refl refl

  then-Silent :
      (c : Client W) (step : Step W) (f : Client W → Step W)
      → Silent c step
      → ((c' : Client W) → Silent c' (f c'))
      → Silent c (step ▸ f)
  unfolding ◌▸◌
  then-Silent c (events, c') f h next = next c' ∙ h

  begin_transport-fired :
      (address : List ℕ) (control_port transform sub : ℤ) (c : Client W)
      → (begin_transport address control_port transform sub c).ready_fired ≡ c.ready_fired
  unfolding begin_transport push_log
  begin_transport-fired address control_port transform sub c =
      if_cases (λ (c' : Client W). c'.ready_fired ≡ c.ready_fired) (c.starts (length c.commands))
        refl refl

  notify-Silent : (note : PendingNotification) (c : Client W) → Silent c (notify note c)
  unfolding notify
  notify-Silent connected_note c = set_state-Silent connected c
  notify-Silent (error_note text) c =
      then-Silent c (set_state error c) _ (set_state-Silent error c) (λ c'. refl)
  notify-Silent (log_note text) c = refl
  notify-Silent (discovered_note server) c =
      begin_transport-fired server.address (pos server.control_port) (pos server.transform_port)
        (pos server.sub_port)
        (record c {
          resolved_address = server.address;
          discovered_rest_api_port = server.rest_api_port;
        })

  notify_all-Silent :
      (notes : List PendingNotification) (c : Client W) → Silent c (notify_all notes c)
  unfolding notify_all
  notify_all-Silent [] c = refl
  notify_all-Silent (note ∷ rest) c =
      then-Silent c (notify note c) (notify_all rest) (notify-Silent note c)
        (notify_all-Silent rest)

  greet-Silent : (now : ℕ) (c : Client W) → Silent c (greet now c)
  unfolding greet enqueue_hello
  greet-Silent now c =
      if_cases (Silent c) (same_state c.state connected && not c.hello_enqueued)
        (if_cases (Silent c) _ (set_state-Silent synchronizing _) refl) refl

  when_some-Silent :
      (payload : Option (List ℕ)) (process : List ℕ → Client W → Step W) (c : Client W)
      → ((p : List ℕ) (c' : Client W) → Silent c' (process p c'))
      → Silent c (when_some payload process c)
  when_some-Silent none process c h = refl
  when_some-Silent (some payload) process c h = h payload c

  on_mapping-Silent :
      (message : Option DeviceIdMappingMessage) (c : Client W) → Silent c (on_mapping message c)
  unfolding on_mapping push_log identify
  on_mapping-Silent none c = refl
  on_mapping-Silent (some message) c = refl

  on_rpc-Silent :
      (format_number : List ℕ → List ℕ) (message : Option RpcMessage) (c : Client W)
      → Silent c (on_rpc format_number message c)
  unfolding on_rpc push_log
  on_rpc-Silent format_number none c = refl
  on_rpc-Silent format_number (some message) c =
      elim (Option-cases (decode_json_string_array format_number message.arguments_json)) [
        | inl e ↦ rw e
        | inr (args, e) ↦ rw e
      ]

  on_global_sync-Silent :
      (message : Option GlobalVarSyncMessage) (c : Client W) → Silent c (on_global_sync message c)
  unfolding on_global_sync push_log
  on_global_sync-Silent none c = refl
  on_global_sync-Silent (some message) c = refl

  on_client_sync-Silent :
      (message : Option ClientVarSyncMessage) (c : Client W) → Silent c (on_client_sync message c)
  unfolding on_client_sync push_log
  on_client_sync-Silent none c = refl
  on_client_sync-Silent (some message) c = refl

  on_ownership_rejected-Silent :
      (message : Option ObjectOwnershipRejectedMessage) (c : Client W)
      → Silent c (on_ownership_rejected message c)
  unfolding on_ownership_rejected push_log
  on_ownership_rejected-Silent none c = refl
  on_ownership_rejected-Silent (some message) c = refl

  on_room_pose-Silent :
      (message : Option (RoomPoseMessage W)) (c : Client W) → Silent c (on_room_pose message c)
  unfolding on_room_pose push_log
  on_room_pose-Silent none c = refl
  on_room_pose-Silent (some message) c =
      if_cases (Silent c) (not (bytes_eq message.room_id c.config.room_id)) refl refl

  on_room_objects-Silent :
      (message : Option (RoomObjectsMessage W)) (c : Client W)
      → Silent c (on_room_objects message c)
  unfolding on_room_objects push_log
  on_room_objects-Silent none c = refl
  on_room_objects-Silent (some message) c = refl

module _ {W : Type 0} ⦃d : Double W⦄ where
  on_ownership_changed-Silent :
      (message : Option ObjectOwnershipChangedMessage) (c : Client W)
      → Silent c (on_ownership_changed message c)
  unfolding on_ownership_changed push_log
  on_ownership_changed-Silent none c = refl
  on_ownership_changed-Silent (some message) c = refl

  process_control_payload-Silent :
      (format_number : List ℕ → List ℕ) (payload : List ℕ) (c : Client W)
      → Silent c (process_control_payload format_number payload c)
  unfolding process_control_payload
  process_control_payload-Silent format_number payload c =
      let type = peek_message_type payload in
      if_cases (Silent c) (type == msg_device_id_mapping) (on_mapping-Silent _ c) (
        if_cases (Silent c) (type == msg_rpc) (on_rpc-Silent format_number _ c) (
          if_cases (Silent c) (type == msg_global_var_sync) (on_global_sync-Silent _ c) (
            if_cases (Silent c) (type == msg_client_var_sync) (on_client_sync-Silent _ c) (
              if_cases (Silent c) (type == msg_object_ownership_changed)
                (on_ownership_changed-Silent _ c)
                (if_cases (Silent c) (type == msg_object_ownership_rejected)
                  (on_ownership_rejected-Silent _ c) refl)))))

  process_all-Silent :
      (format_number : List ℕ → List ℕ) (payloads : List (List ℕ)) (c : Client W)
      → Silent c (process_all format_number payloads c)
  process_all-Silent format_number [] c = refl
  process_all-Silent format_number (payload ∷ rest) c =
      then-Silent c (process_control_payload format_number payload c)
        (process_all format_number rest) (process_control_payload-Silent format_number payload c)
        (process_all-Silent format_number rest)

  process_room_pose-Silent :
      (payload : List ℕ) (c : Client W) → Silent c (process_room_pose payload c)
  unfolding process_room_pose
  process_room_pose-Silent payload c = on_room_pose-Silent (deserialize_room_pose payload) c

  process_room_objects-Silent :
      (payload : List ℕ) (c : Client W) → Silent c (process_room_objects payload c)
  unfolding process_room_objects
  process_room_objects-Silent payload c =
      on_room_objects-Silent (deserialize_room_objects payload) c

  drain_inbound-Silent :
      (format_number : List ℕ → List ℕ) (c : Client W) → Silent c (drain_inbound format_number c)
  unfolding drain_inbound
  drain_inbound-Silent format_number c =
      let emptied = record c {
        control_inbox = [];
        latest_room_pose = none;
        latest_room_objects = none;
      } in
      then-Silent c
        (when_some c.latest_room_pose process_room_pose emptied
          ▸ process_all format_number c.control_inbox)
        (when_some c.latest_room_objects process_room_objects)
        (then-Silent c (when_some c.latest_room_pose process_room_pose emptied)
          (process_all format_number c.control_inbox)
          (when_some-Silent c.latest_room_pose process_room_pose emptied process_room_pose-Silent)
          (process_all-Silent format_number c.control_inbox))
        (λ c'.
          when_some-Silent c.latest_room_objects process_room_objects c'
            process_room_objects-Silent)

  -- Nothing that a poll does before its last step touches `ready_fired`.
  pub work-Silent :
      (format_number : List ℕ → List ℕ) (now : Instant W) (c : Client W)
      → Silent c (work format_number now c)
  unfolding work drain_internal_events
  work-Silent format_number now c =
      then-Silent c (drain_internal_events c ▸ greet now.milliseconds ▸ drain_inbound format_number)
        (λ c'. quietly (flush_outbound now c'))
        (then-Silent c (drain_internal_events c ▸ greet now.milliseconds)
          (drain_inbound format_number)
          (then-Silent c (notify_all c.notifications (record c { notifications = [] }))
            (greet now.milliseconds)
            (notify_all-Silent c.notifications (record c { notifications = [] }))
            (greet-Silent now.milliseconds))
          (drain_inbound-Silent format_number))
        (flush_outbound-fired now)

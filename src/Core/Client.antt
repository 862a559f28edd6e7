-- ===== src/Core/Client.antt =====
-- NetSyncClient of src/core/netsync_client.*: its state, its events, and the lifecycle. The managers
-- of the other modules are parts of the state. Child modules, which use this one, hold the inbox,
-- the dispatch of messages, poll, and the proofs.
pub mod Inbox
pub mod Dispatch
pub mod Poll
pub mod Calls
pub mod Readiness
pub mod Timeout
pub mod Delivery
pub mod Early
pub mod Rooms
pub mod PosePace
pub mod Silent
pub mod Announced
use styly_net_sync_godot.Base.{
  ℕ, ltb, Bool, true, false, not, ◌&&◌, ◌||◌, Option, none, some, List, [], ◌∷◌, ◌++◌, length,
  if◌then◌else◌,
}
use styly_net_sync_godot.Base.Int.{ℤ, pos, negsuc}
use styly_net_sync_godot.Base.Dict.{Dict}
use styly_net_sync_godot.Core.Link.{Link}
use styly_net_sync_godot.Core.Mapping.{DeviceMapping}
use styly_net_sync_godot.Core.Mapping
use styly_net_sync_godot.Core.Rpc.Manager.{RpcManager}
use styly_net_sync_godot.Core.Rpc.Manager
use styly_net_sync_godot.Core.Variables.Manager.{Manager, VariableChange, clear_all}
use styly_net_sync_godot.Core.Objects.{
  ObjectManager, OwnershipChange, OwnershipRejection, long_ago, clear_room_scoped_state,
  set_local_identity,
}
use styly_net_sync_godot.Transport.Discovery.{DiscoveredServer}
use styly_net_sync_godot.Protocol.Pose.Double.{Double}
use styly_net_sync_godot.Protocol.Pose.Body.{ClientPoseBody}

pub data ConnectionState : Type 0 where
  disconnected connecting connected synchronizing ready error : ConnectionState

abbrev pub same_state : ConnectionState → ConnectionState → Bool
same_state disconnected disconnected = true
same_state connecting connecting = true
same_state connected connected = true
same_state synchronizing synchronizing = true
same_state ready ready = true
same_state error error = true
same_state _ _ = false

-- The texts that push_log gets from this class, with what stands in them.
pub data Note : Type 0 where
  no_server_address discovery_failed transport_is_running : Note
  malformed : (message_type : ℕ) → Note
  not_an_array : (function_name : List ℕ) → Note
  -- from the transport or the discovery
  other : List ℕ → Note

-- An event with the fields that its type uses; the others keep their defaults. The text of
-- `server_version` is made of its numbers.
pub data Event : Type 0 where
  state_changed : ConnectionState → Event
  ready_event : (client_no : ℤ) → Event
  connection_error : List ℕ → Event
  server_discovered : DiscoveredServer → Event
  client_no_assigned : ℤ → Event
  avatar_connected : ℤ → (device_id : List ℕ) → Event
  avatar_disconnected : ℤ → Event
  rpc_received : (sender : ℤ) → (function_name : List ℕ) → (args : List (List ℕ)) → Event
  global_variable_changed : VariableChange → Event
  client_variable_changed : VariableChange → Event
  ownership_changed : OwnershipChange → Event
  ownership_rejected : OwnershipRejection → Event
  server_version : (major minor patch : ℕ) → Event
  log_event : Note → Event

pub record ClientConfig (W : Type 0) : Type 0 where
  pub server_address : List ℕ
  pub control_port : ℤ
  pub transform_port : ℤ
  pub sub_port : ℤ
  pub discovery_port : ℤ
  pub room_id : List ℕ
  pub device_id : List ℕ
  pub stealth_mode : Bool
  pub transform_send_rate : W
  pub enable_discovery : Bool

pub record RemoteClientPose (W : Type 0) : Type 0 where
  pub client_no : ℤ
  pub pose_time : ℕ
  pub broadcast_time : ℕ
  pub body : ClientPoseBody W

pub data PendingNotification : Type 0 where
  connected_note : PendingNotification
  error_note : List ℕ → PendingNotification
  log_note : Note → PendingNotification
  discovered_note : DiscoveredServer → PendingNotification

-- The calls of the transport and of the discovery that start and stop threads or fill the
-- latest-wins lanes, in order.
pub data Command : Type 0 where
  stop_discovery stop_transport : Command
  start_discovery : (port : ℤ) → Command
  start_transport : (address : List ℕ) → (control transform sub : ℤ) → (room_id : List ℕ) → Command
  latest_transform : List ℕ → Command
  latest_object_transform : (object_id : ℕ) → List ℕ → Command

-- `link` is the control lane, which the managers share: each is lent it for a call. `starts` is
-- what the n-th command answers, for those that answer. A flag with the slot that it guards is an
-- Option.
pub record Client (W : Type 0) : Type 0 where
  pub config : ClientConfig W
  pub resolved_address : List ℕ
  pub discovered_rest_api_port : ℕ
  pub link : Link
  pub starts : ℕ → Bool
  pub commands : List Command
  pub mapping : DeviceMapping
  pub rpc_manager : RpcManager
  pub variables : Manager
  pub objects : ObjectManager W
  pub state : ConnectionState
  pub ready_fired : Bool
  pub version_checked : Bool
  pub hello_enqueued : Bool
  pub control_inbox : List (List ℕ)
  pub latest_room_pose : Option (List ℕ)
  pub latest_room_objects : Option (List ℕ)
  pub control_inbox_dropped : ℕ
  pub notifications : List PendingNotification
  pub local_pose : Option (ClientPoseBody W)
  pub local_pose_seq : ℕ
  pub last_pose_send_time : W
  pub last_pose_change_send_time : W
  pub last_pose_signature : Option (List ℕ)
  pub remote_poses : Dict ℤ (RemoteClientPose W)
  pub last_room_broadcast_time : ℕ

-- The events of a step, and the state after it.
abbrev pub Step : Type 0 → Type 0
Step W = List Event × Client W

abbrev default_room : List ℕ
default_room =
    b'd' ∷ b'e' ∷ b'f' ∷ b'a' ∷ b'u' ∷ b'l' ∷ b't' ∷ b'_' ∷ b'r' ∷ b'o' ∷ b'o' ∷ b'm' ∷ []

abbrev room_or_default : List ℕ → List ℕ
room_or_default [] = default_room
room_or_default (b ∷ bs) = b ∷ bs

abbrev pub may_connect : ConnectionState → Bool
may_connect state = same_state state disconnected || same_state state error

module _ {W : Type 0} where
  infixl 5 ◌▸◌
  -- One step after the other, their events appended.
  unfoldable pub ◌▸◌ : Step W → (Client W → Step W) → Step W
  (events, c) ▸ f = let (more, c') = f c in (events ++ more, c')

  abbrev pub quietly : Client W → Step W
  quietly c = ([], c)

  unfoldable pub push_log : Note → Client W → Client W
  push_log text c = record c { notifications = c.notifications ++ (log_note text ∷ []) }

  abbrev pub command : Command → Client W → Bool × Client W
  command call c = (c.starts (length c.commands), record c { commands = c.commands ++ (call ∷ []) })

  unfoldable pub with_variables {ℓ} :
      {A : Type ℓ} → (Manager → A × Manager) → Client W → A × Client W
  with_variables f c =
      let (a, m) = f (record c.variables { link = c.link }) in
      (a, record c { variables = m; link = m.link })

  unfoldable pub with_rpc {ℓ} :
      {A : Type ℓ} → (RpcManager → A × RpcManager) → Client W → A × Client W
  with_rpc f c =
      let (a, m) = f (record c.rpc_manager { link = c.link }) in
      (a, record c { rpc_manager = m; link = m.link })

  unfoldable pub with_objects {ℓ} :
      {A : Type ℓ} → (ObjectManager W → A × ObjectManager W) → Client W → A × Client W
  with_objects f c =
      let (a, m) = f (record c.objects { link = c.link }) in
      (a, record c { objects = m; link = m.link })

  -- set_local_identity of both managers.
  unfoldable pub identify : ℤ → Client W → Client W
  unfolding set_local_identity
  identify client_no c = record c {
    variables = record c.variables {
      local_client_no = client_no;
      local_device_id = c.config.device_id;
    };
    objects = set_local_identity client_no c.config.device_id c.objects;
  }

  unfoldable pub set_state : ConnectionState → Client W → Step W
  set_state state c =
      if same_state c.state state
      then ([], c)
      else (state_changed state ∷ [], record c { state = state })

  unfoldable pub has_handshake : Client W → Bool
  has_handshake c = elim c.mapping.local_client_no [ pos n ↦ ltb 0 n | negsuc n ↦ false ]

  -- `up` is what is_connected reads of the transport at the time of the call.
  unfoldable pub is_ready : Bool → Client W → Bool
  unfolding has_handshake
  is_ready up c = up && (has_handshake c && c.variables.has_received_initial_sync)

  unfoldable pub begin_transport : List ℕ → (control transform sub : ℤ) → Client W → Client W
  unfolding push_log
  begin_transport address control transform sub c =
      let (started, c') =
        command (start_transport address control transform sub c.config.room_id)
          (record c { hello_enqueued = false }) in
      if started then c' else push_log transport_is_running c'

module _ {W : Type 0} ⦃d : Double W⦄ where
  unfoldable pub reset_session_state : Client W → Client W
  unfolding clear_room_scoped_state
  reset_session_state c = record c {
    control_inbox = [];
    latest_room_pose = none;
    latest_room_objects = none;
    notifications = [];
    mapping = record (Mapping.clear c.mapping) { local_device_id = c.config.device_id };
    rpc_manager = Manager.clear_pending c.rpc_manager;
    variables = clear_all c.variables;
    objects = clear_room_scoped_state c.objects;
    remote_poses = [];
    last_room_broadcast_time = 0;
    ready_fired = false;
    version_checked = false;
    hello_enqueued = false;
    local_pose = none;
    local_pose_seq = 0;
    last_pose_send_time = long_ago;
    last_pose_change_send_time = long_ago;
    last_pose_signature = none;
    discovered_rest_api_port = 0;
  }

  -- `std::min(60.0, std::max(0.5, rate))`
  unfoldable pub clamped_rate : W → W
  clamped_rate rate =
      let raised = if d.lt (d.decimal 5 1) rate then rate else d.decimal 5 1 in
      if d.lt raised (d.decimal 60 0) then raised else d.decimal 60 0

  unfoldable pub set_transform_send_rate : W → Client W → Client W
  unfolding clamped_rate
  set_transform_send_rate rate c = record c {
    config = record c.config { transform_send_rate = clamped_rate rate };
  }

  -- The steps of connect behind its first test.
  abbrev pub begin : ClientConfig W → Client W → Client W
  begin config c =
      let stopped = (command stop_transport (command stop_discovery c).1).1 in
      let configured = record stopped {
        config = record config {
          transform_send_rate = clamped_rate config.transform_send_rate;
          room_id = room_or_default config.room_id;
        };
      } in
      record (identify (pos 0) (reset_session_state configured)) { state = connecting }

  abbrev discover : Client W → Bool × Client W
  discover c =
      if not c.config.enable_discovery
      then (false, push_log no_server_address (record c { state = error }))
      else let (started, c') = command (start_discovery c.config.discovery_port) c in
        if started
        then (true, c')
        else (false, push_log discovery_failed (record c' { state = error }))

  abbrev reach : List ℕ → Client W → Bool × Client W
  reach [] c = discover c
  reach (b ∷ bs) c =
      let address = b ∷ bs in
      (
        true,
        begin_transport address c.config.control_port c.config.transform_port c.config.sub_port
            (record c { resolved_address = address }),
      )

  unfoldable pub connect : ClientConfig W → Client W → Bool × Client W
  unfolding begin_transport reset_session_state identify push_log clamped_rate
  connect config c =
      if not (may_connect c.state) then (false, c) else reach config.server_address (begin config c)

  unfoldable pub disconnect : Client W → Client W
  unfolding reset_session_state
  disconnect c =
      record (reset_session_state (command stop_transport (command stop_discovery c).1).1) {
        state = disconnected;
      }

-- ===== src/Core/Client/Calls.antt =====
-- The calls that the host makes of NetSyncClient in src/core/netsync_client.cpp: RPCs, variables,
-- objects and remote poses, each by the manager that has them.
use styly_net_sync_godot.Base.{ℕ, Bool, Option, none, some, List, [], ◌∷◌}
use styly_net_sync_godot.Base.Int.{ℤ}
use styly_net_sync_godot.Base.Keys.{int_key}
use styly_net_sync_godot.Base.Dict.{Dict, lookup}
use styly_net_sync_godot.Protocol.Pose.Double.{Double}
use styly_net_sync_godot.Protocol.Pose.Body.{PoseTransform}
use styly_net_sync_godot.Core.Rpc.Manager as Rpc
use styly_net_sync_godot.Core.Variables.Manager as Variables
use styly_net_sync_godot.Core.Objects as Objects
use styly_net_sync_godot.Core.Client.{
  Client, RemoteClientPose, with_variables, with_rpc, with_objects, is_ready,
}

abbrev value_or : List ℕ → Option (List ℕ) → List ℕ
value_or fallback none = fallback
value_or fallback (some value) = value

module _ {W : Type 0} where
  -- `now` is the time of the steady clock, and `up` what is_connected reads.
  unfoldable pub rpc_to_many : ℕ → Bool → List ℤ → List ℕ → List (List ℕ) → Client W → Client W
  unfolding with_rpc is_ready
  rpc_to_many now up target_client_nos function_name args c =
      (with_rpc {A = Unit {0}}
        (λ m. (
          tt,
          Rpc.send now (is_ready up c) c.mapping.local_client_no c.config.device_id
              target_client_nos function_name args m,
        ))
        c).1

  unfoldable pub rpc : ℕ → Bool → List ℕ → List (List ℕ) → Client W → Client W
  unfolding rpc_to_many
  rpc now up function_name args c = rpc_to_many now up [] function_name args c

  unfoldable pub rpc_to : ℕ → Bool → ℤ → List ℕ → List (List ℕ) → Client W → Client W
  unfolding rpc_to_many
  rpc_to now up target_client_no function_name args c =
      rpc_to_many now up (target_client_no ∷ []) function_name args c

  unfoldable pub configure_rpc_rate_limit : ℤ → ℤ → ℤ → Client W → Client W
  configure_rpc_rate_limit rpc_limit window warn_cooldown c = record c {
    rpc_manager = Rpc.configure_rate_limit rpc_limit window warn_cooldown c.rpc_manager;
  }

  unfoldable pub set_global_variable : ℕ → List ℕ → List ℕ → Client W → Bool × Client W
  unfolding with_variables
  set_global_variable now name value c = with_variables (Variables.set_global now name value) c

  unfoldable pub get_global_variable : List ℕ → List ℕ → Client W → List ℕ
  get_global_variable name fallback c = value_or fallback (Variables.get_global name c.variables)

  unfoldable pub get_all_global_variables : Client W → Dict (List ℕ) (List ℕ)
  get_all_global_variables c = c.variables.globals

  unfoldable pub set_client_variable_for : ℕ → ℤ → List ℕ → List ℕ → Client W → Bool × Client W
  unfolding with_variables
  set_client_variable_for now target_client_no name value c =
      with_variables (Variables.set_client now target_client_no name value) c

  unfoldable pub set_client_variable : ℕ → List ℕ → List ℕ → Client W → Bool × Client W
  unfolding set_client_variable_for
  set_client_variable now name value c =
      set_client_variable_for now c.mapping.local_client_no name value c

  unfoldable pub get_client_variable : ℤ → List ℕ → List ℕ → Client W → List ℕ
  get_client_variable client_no name fallback c =
      value_or fallback (Variables.get_client client_no name c.variables)

  unfoldable pub get_all_client_variables : ℤ → Client W → Dict (List ℕ) (List ℕ)
  get_all_client_variables client_no c = Variables.all_client_variables client_no c.variables

  -- The changes are dropped.
  unfoldable pub clear_my_client_variables : Client W → Bool × Client W
  unfolding with_variables
  clear_my_client_variables c =
      with_variables
        (λ m. let (ok, m', changes) = Variables.clear_my_client_variables m in (ok, m')) c

  unfoldable pub unregister_object : ℕ → Client W → Client W
  unregister_object object_id c = record c {
    objects = Objects.unregister_object object_id c.objects;
  }

  unfoldable pub submit_object_pose : ℕ → PoseTransform W → Client W → Client W
  submit_object_pose object_id pose c = record c {
    objects = Objects.submit_local_pose object_id pose c.objects;
  }

  unfoldable pub get_object_state : ℕ → Client W → Option (Objects.ObjectState W)
  get_object_state object_id c = Objects.get_state object_id c.objects

  unfoldable pub request_object_ownership : ℕ → Client W → Bool × Client W
  unfolding with_objects
  request_object_ownership object_id c = with_objects (Objects.request_ownership object_id) c

  unfoldable pub release_object_ownership : ℕ → Client W → Bool × Client W
  unfolding with_objects
  release_object_ownership object_id c = with_objects (Objects.release_ownership object_id) c

  unfoldable pub get_remote_pose : ℤ → Client W → Option (RemoteClientPose W)
  get_remote_pose client_no c = lookup client_no c.remote_poses

  abbrev numbers : Dict ℤ (RemoteClientPose W) → List ℤ
  numbers [] = []
  numbers ((client_no, pose) ∷ rest) = client_no ∷ numbers rest

  unfoldable pub remote_client_numbers : Client W → List ℤ
  remote_client_numbers c = numbers c.remote_poses

module _ {W : Type 0} ⦃d : Double W⦄ where
  unfoldable pub register_object : ℕ → Client W → Bool × Client W
  register_object object_id c =
      let (ok, objects) = Objects.register_object object_id c.objects in
      (ok, record c { objects = objects })

-- ===== src/Core/Variables/Invariant.antt =====
-- Whatever happens to a NetworkVariableManager, each pending value keeps a deadline.
use styly_net_sync_godot.Base.{
  ℕ, ◌+◌, ltb, Bool, true, false, not, ◌&&◌, ◌||◌, List, [], ◌∷◌, if_cases, leb, length,
}
use styly_net_sync_godot.Base.Int.{ℤ}
use styly_net_sync_godot.Base.Keys.{int_key, bytes_key, pair_key}
use styly_net_sync_godot.Base.Dict.{lookup, has}
use styly_net_sync_godot.Protocol.Variables.{GlobalVarSyncMessage, ClientVarSyncMessage}
use styly_net_sync_godot.Core.Link.{Link, transmit}
use styly_net_sync_godot.Core.Variables.Lane.Paired.{
  submit-Paired, empty_lane-Paired, flush_pending-Paired,
}
use styly_net_sync_godot.Core.Variables.Manager.{
  Manager, VariableChange, max_global_vars, max_client_vars, initial_sync_timeout, validate_name,
  validate_value, global_payload, client_payload, set_global, set_client, or_empty,
  on_connection_established, check_initial_sync_timeout, cleared, is_positive, clear_payload,
  clear_my_client_variables, tick, clear_pending_sends, clear_all,
}
use styly_net_sync_godot.Core.Variables.Incoming.{
  IsPaired, clear_pending_for_client-Paired, global_entries-Paired, client_snapshots-IsPaired,
}
use styly_net_sync_godot.Core.Variables.Sync.{handle_global_sync, handle_client_sync}

-- The calls that a client makes, and the messages that it gets.
pub data Call : Type 0 where
  sets_global : ℕ → List ℕ → List ℕ → Call
  sets_client : ℕ → ℤ → List ℕ → List ℕ → Call
  clears_mine : Call
  gets_globals : GlobalVarSyncMessage → Call
  gets_clients : ClientVarSyncMessage → Call
  ticks : ℕ → Call
  connects : ℕ → Call
  times_out : ℕ → Call
  clears_sends : Call
  clears_all : Call

unfoldable pub step : Call → Manager → Manager
step (sets_global now name value) m = (set_global now name value m).1
step (sets_client now target name value) m = (set_client now target name value m).1
step clears_mine m = (clear_my_client_variables m).1
step (gets_globals message) m = (handle_global_sync message m).0
step (gets_clients message) m = (handle_client_sync message m).0
step (ticks now) m = (tick now m).1
step (connects now) m = on_connection_established now m
step (times_out now) m = (check_initial_sync_timeout now m).1
step clears_sends m = clear_pending_sends m
step clears_all m = clear_all m

unfoldable pub run : List Call → Manager → Manager
run [] m = m
run (c ∷ cs) m = run cs (step c m)

cleared-IsPaired : (m : Manager) (r : Bool × Link) → IsPaired m → IsPaired (cleared m r).1
cleared-IsPaired m (false, link) v = record { global = v.global; client = v.client }
cleared-IsPaired m (true, link) v = record {
  global = v.global;
  client = clear_pending_for_client-Paired m.local_client_no m.client_lane v.client;
}

abbrev Then : Bool × Manager → Type 0
Then r = IsPaired r.1

set_global-IsPaired :
    (now : ℕ) (name value : List ℕ) (m : Manager)
    → IsPaired m
    → IsPaired (set_global now name value m).1
unfolding set_global
set_global-IsPaired now name value m v = if_cases Then (not (validate_name name)) v (
    if_cases Then (not (validate_value value)) v (
      if_cases Then (leb max_global_vars (length m.globals) && not (has name m.globals)) v (record {
        global =
            submit-Paired now (global_payload m name value) name value m.global_lane m.link
              v.global;
        client = v.client;
      })))

set_client-IsPaired :
    (now : ℕ) (target : ℤ) (name value : List ℕ) (m : Manager)
    → IsPaired m
    → IsPaired (set_client now target name value m).1
unfolding set_client
set_client-IsPaired now target name value m v =
    let variables = or_empty (lookup target m.client_variables) in
    if_cases Then (not (validate_name name)) v (
      if_cases Then (not (validate_value value)) v (
        if_cases Then (leb max_client_vars (length variables) && not (has name variables))
          (record { global = v.global; client = v.client })
          (record {
            global = v.global;
            client =
                submit-Paired now (client_payload m (target, name) value) (target, name) value
                  m.client_lane m.link v.client;
          })))

tick-IsPaired : (now : ℕ) (m : Manager) → IsPaired m → IsPaired (tick now m).1
unfolding tick
tick-IsPaired now m v = record {
  global = flush_pending-Paired (global_payload m) now m.global_lane m.link v.global;
  client = flush_pending-Paired (client_payload m) now m.client_lane _ v.client;
}

check_initial_sync_timeout-IsPaired :
    (now : ℕ) (m : Manager) → IsPaired m → IsPaired (check_initial_sync_timeout now m).1
unfolding check_initial_sync_timeout
check_initial_sync_timeout-IsPaired now m v =
    if_cases Then (m.has_received_initial_sync || not m.connection_established) v (
      if_cases Then (ltb now (m.connection_established_at + initial_sync_timeout)) v
        (record { global = v.global; client = v.client }))

pub step-IsPaired : (c : Call) (m : Manager) → IsPaired m → IsPaired (step c m)
unfolding step clear_my_client_variables handle_global_sync handle_client_sync
    on_connection_established clear_pending_sends clear_all
step-IsPaired (sets_global now name value) m v = set_global-IsPaired now name value m v
step-IsPaired (sets_client now target name value) m v =
    set_client-IsPaired now target name value m v
step-IsPaired clears_mine m v =
    if_cases (λ (r : Bool × Manager × List VariableChange). IsPaired r.1)
      (not (is_positive m.local_client_no)) v
      (cleared-IsPaired m (transmit (clear_payload m) m.link) v)
step-IsPaired (gets_globals message) m v = record {
  global = global_entries-Paired message.variables m.globals m.global_lane v.global;
  client = v.client;
}
step-IsPaired (gets_clients message) m v =
    client_snapshots-IsPaired message.clients (record m { has_received_initial_sync = true })
      (record { global = v.global; client = v.client })
step-IsPaired (ticks now) m v = tick-IsPaired now m v
step-IsPaired (connects now) m v = record { global = v.global; client = v.client }
step-IsPaired (times_out now) m v = check_initial_sync_timeout-IsPaired now m v
step-IsPaired clears_sends m v = record { global = empty_lane-Paired; client = empty_lane-Paired }
step-IsPaired clears_all m v = record { global = empty_lane-Paired; client = empty_lane-Paired }

-- Whatever calls and messages come in whatever order, a global or client variable has a pending
-- value exactly while it has a deadline, if that holds at the start.
pub run-IsPaired : (cs : List Call) (m : Manager) → IsPaired m → IsPaired (run cs m)
unfolding run
run-IsPaired [] m v = v
run-IsPaired (c ∷ cs) m v = run-IsPaired cs (step c m) (step-IsPaired c m v)

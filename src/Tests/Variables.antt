-- ===== src/Tests/Variables.antt =====
-- Runs of NetworkVariableManager in src/core/network_variable_manager.cpp.
use styly_net_sync_godot.Base.{
  ℕ, zero, suc, ◌<◌, ◌^◌, ◌≡◌, ◌≢◌, ◌⊎◌, refl, arith, true, false, none, some, List, [], ◌∷◌, ◌++◌,
  length,
}
use styly_net_sync_godot.Base.Int.{ℤ, pos}
use styly_net_sync_godot.Base.Keys.{bytes_key, int_key, pair_key}
use styly_net_sync_godot.Base.Dict.{lookup, has}
use styly_net_sync_godot.Wire.Writer.{write_u8, write_u16, write_string8, write_string16}
use styly_net_sync_godot.Wire.Utf8.{
  truncate_utf8_bytes, truncate_utf8_code_points, code_point_length, cut_index, is_continuation,
  back_up,
}
use styly_net_sync_godot.Protocol.Variables.{
  NetworkVariableEntry, GlobalVarSyncMessage, ClientVarSyncMessage, GlobalVarSetMessage,
  serialize_global_var_set, deserialize_global_var_set, clamp_variable_name, clamp_variable_value,
}
use styly_net_sync_godot.Core.Variables.Lane.{empty_lane}
use styly_net_sync_godot.Core.Variables.Lane.Delivery.{intent, AllDue, newer}
use styly_net_sync_godot.Core.Variables.Manager.{
  Manager, set_global, get_global, get_client, tick, validate_name, validate_value, global_payload,
}
use styly_net_sync_godot.Core.Variables.Sync.{handle_global_sync, handle_client_sync}
use styly_net_sync_godot.Core.Variables.Incoming.{IsPaired}
use styly_net_sync_godot.Core.Variables.Invariant.{
  Call, sets_global, ticks, clears_mine, gets_globals, run, run-IsPaired,
}
use styly_net_sync_godot.Core.Variables.Intent.{
  accepts_global, set_global_outcome, tick-delivers, OnWire,
}
use styly_net_sync_godot.Core.Variables.Snapshots.{
  latest, seen, latest_snapshot, get_client-handle_client_sync,
}
use styly_net_sync_godot.Core.Variables.Globals.{
  replay, Faithful, get_global-handle_global_sync, handle_global_sync-replay,
}
use styly_net_sync_godot.Core.Variables.Names.{global_payload-renames}

abbrev pub manager : Manager
manager = record {
  link = record { answer = some (λ n payload. true); calls = 0; sent = [] };
  local_client_no = pos 3;
  local_device_id = 100 ∷ [];
  globals = (97 ∷ [], 49 ∷ []) ∷ [];
  client_variables = (pos 5, (97 ∷ [], 49 ∷ []) ∷ []) ∷ [];
  global_lane = record {
    last_sent = [];
    next_allowed = (97 ∷ [], 1100) ∷ [];
    pending = (97 ∷ [], 50 ∷ []) ∷ [];
    due = (97 ∷ [], 1100) ∷ [];
  };
  client_lane = empty_lane;
  has_received_initial_sync = true;
  connection_established = true;
  connection_established_at = 500;
}

manager-IsPaired : IsPaired manager
unfolding has
manager-IsPaired = record { global = λ k. refl; client = λ k. refl }

abbrev entry : NetworkVariableEntry
entry = record { name = 97 ∷ []; value = 50 ∷ []; last_writer_client_no = 4 }

abbrev globals : GlobalVarSyncMessage
globals = record { variables = entry ∷ [] }

abbrev clients : ClientVarSyncMessage
clients = record { clients = (5, entry ∷ []) ∷ (6, []) ∷ [] }

abbrev calls : List Call
calls = sets_global 1000 (98 ∷ []) (49 ∷ []) ∷ ticks 1100 ∷ gets_globals globals ∷ clears_mine ∷ []

run-IsPaired_example : IsPaired (run calls manager)
run-IsPaired_example = run-IsPaired calls manager manager-IsPaired

all_due : AllDue 2000 manager.global_lane
unfolding lookup
all_due k t h = ground arith

none_due : AllDue {K = ℤ × List ℕ} 2000 empty_lane
unfolding lookup
none_due k t h = ground arith

tick-delivers_example :
    ((tick 2000 manager).0 ≡ true)
    × ((new : List (List ℕ)) × ((tick 2000 manager).1.link.sent ≡ manager.link.sent ++ new)
        × OnWire manager (97 ∷ []) (pos 5, 97 ∷ []) new)
    × (lookup (97 ∷ []) (tick 2000 manager).1.global_lane.pending ≡ none)
    × (lookup (97 ∷ []) (tick 2000 manager).1.global_lane.last_sent
        ≡ intent (97 ∷ []) manager.global_lane)
    × (lookup (pos 5, 97 ∷ []) (tick 2000 manager).1.client_lane.pending ≡ none)
    × (lookup (pos 5, 97 ∷ []) (tick 2000 manager).1.client_lane.last_sent
        ≡ intent (pos 5, 97 ∷ []) manager.client_lane)
tick-delivers_example =
    tick-delivers 2000 manager (97 ∷ []) (pos 5, 97 ∷ []) manager-IsPaired all_due none_due
      (λ n payload. refl)

set_global_outcome_example :
    ((accepts_global (98 ∷ []) (49 ∷ []) manager ≡ false)
      × (set_global 1000 (98 ∷ []) (49 ∷ []) manager ≡ (false, manager)))
    ⊎ ((accepts_global (98 ∷ []) (49 ∷ []) manager ≡ true)
        × ((set_global 1000 (98 ∷ []) (49 ∷ []) manager).0 ≡ true)
        × (intent (98 ∷ []) (set_global 1000 (98 ∷ []) (49 ∷ []) manager).1.global_lane
            ≡ some (49 ∷ []))
        × ((set_global 1000 (98 ∷ []) (49 ∷ []) manager).1.globals ≡ manager.globals))
set_global_outcome_example = set_global_outcome 1000 (98 ∷ []) (49 ∷ []) manager

get_client-handle_client_sync_example :
    get_client (pos 5) (97 ∷ []) (handle_client_sync clients manager).0
    ≡ seen
        (97 ∷ [])
        (get_client (pos 5) (97 ∷ []) manager)
        (latest_snapshot (pos 5) clients.clients)
get_client-handle_client_sync_example =
    get_client-handle_client_sync (pos 5) (97 ∷ []) clients manager

get_global-handle_global_sync_example :
    get_global (97 ∷ []) (handle_global_sync globals manager).0
    ≡ newer (latest (97 ∷ []) globals.variables) (get_global (97 ∷ []) manager)
get_global-handle_global_sync_example = get_global-handle_global_sync (97 ∷ []) globals manager

handle_global_sync-replay_example :
    (replay (handle_global_sync globals manager).1 manager.globals
      ≡ (handle_global_sync globals manager).0.globals)
    × Faithful (handle_global_sync globals manager).1 manager.globals
handle_global_sync-replay_example = handle_global_sync-replay globals manager

-- 64 characters of four bytes each: 256 bytes.
abbrev emojis : ℕ → List ℕ
emojis zero = []
emojis (suc n) = 0xF0 ∷ 0x9F ∷ 0x98 ∷ 0x80 ∷ emojis n

long_name : accepts_global (emojis 64) (49 ∷ []) manager ≡ true
unfolding accepts_global validate_name validate_value code_point_length is_continuation has
long_name = refl

long_payload-length : length (global_payload manager (emojis 64) (49 ∷ [])) < 2 ^ 64
unfolding global_payload serialize_global_var_set clamp_variable_name clamp_variable_value
    truncate_utf8_code_points cut_index write_u8 write_u16 write_string8 write_string16
    truncate_utf8_bytes is_continuation back_up
long_payload-length = omega arith

global_payload-renames_example :
    ((set_global 1000 (emojis 64) (49 ∷ []) manager).0 ≡ true)
    × ((m' : GlobalVarSetMessage) × (deserialize_global_var_set
            (global_payload manager (emojis 64) (49 ∷ []))
          ≡ some m')
        × (m'.variable_name ≢ emojis 64))
global_payload-renames_example =
    global_payload-renames 1000 (emojis 64) (49 ∷ []) manager long_name (omega arith) (omega arith)
      long_payload-length

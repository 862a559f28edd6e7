-- ===== src/Tests/Rpc.antt =====
-- Runs of RpcManager in src/core/rpc_manager.cpp.
use styly_net_sync_godot.Base.{
  ◌≡◌, refl, arith, inl, true, false, some, List, [], ◌∷◌, ◌++◌, take, map,
}
use styly_net_sync_godot.Base.Int.{pos, negsuc}
use styly_net_sync_godot.Core.Rpc.Manager.{
  RpcManager, PendingRpc, targets_of, flush_pending, max_flush_per_tick,
}
use styly_net_sync_godot.Core.Rpc.RateLimit.{granted_times, Spaced, granted_times-Spaced}
use styly_net_sync_godot.Core.Rpc.Queue.{Unsendable, flush_pending-blocked}
use styly_net_sync_godot.Core.Rpc.Delivery.{Sendable, fresh, pending_payload, flush_pending-sends}

abbrev wave : PendingRpc
wave = record {
  function_name = 104 ∷ 105 ∷ [];
  arguments = (97 ∷ []) ∷ [];
  target_client_nos = pos 7 ∷ [];
  enqueued_at = 1000;
}

abbrev stray : PendingRpc
stray = record wave { target_client_nos = negsuc 0 ∷ [] }

abbrev pub manager : List PendingRpc → RpcManager
manager pending = record {
  link = record { answer = some (λ n payload. true); calls = 0; sent = [] };
  rate_hits = [];
  rpc_limit = 0;
  window = 1000;
  warn_cooldown = 500;
  last_warn_at = 0;
  pending = pending;
  dropped_rate_limited = 0;
  dropped_expired = 0;
  dropped_overflow = 0;
}

granted_times-Spaced_example : Spaced 2 1000 (granted_times 2 1000 0 (10 ∷ 10 ∷ 10 ∷ 1500 ∷ []) [])
granted_times-Spaced_example =
    granted_times-Spaced 2 1000 0 (10 ∷ 10 ∷ 10 ∷ 1500 ∷ []) (omega arith)

stray-Unsendable : Unsendable (negsuc 0 ∷ [])
unfolding targets_of
stray-Unsendable = inl refl

flush_pending-blocked_example :
    let r = flush_pending 1500 true (pos 3) (100 ∷ []) (manager (stray ∷ wave ∷ [])) in
    (r.0 ≡ false)
    × (r.1.link ≡ (manager (stray ∷ wave ∷ [])).link)
    × (r.1.pending ≡ stray ∷ wave ∷ [])
flush_pending-blocked_example =
    flush_pending-blocked 1500 (pos 3) (100 ∷ []) stray (wave ∷ []) (manager (stray ∷ wave ∷ []))
      refl (omega arith) stray-Unsendable

wave-Sendable : Sendable wave
unfolding targets_of
wave-Sendable = (7 ∷ [], refl, omega arith)

flush_pending-sends_example :
    (flush_pending 1500 true (pos 3) (100 ∷ []) (manager (wave ∷ wave ∷ []))).1.link.sent
    ≡ []
      ++ map
          (pending_payload (pos 3) (100 ∷ []))
          (take max_flush_per_tick (fresh 1500 (wave ∷ wave ∷ [])))
flush_pending-sends_example =
    flush_pending-sends 1500 (pos 3) (100 ∷ []) (manager (wave ∷ wave ∷ [])) refl
      (λ n payload. refl) (wave-Sendable, (wave-Sendable, tt))

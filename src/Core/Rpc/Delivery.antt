-- ===== src/Core/Rpc/Delivery.antt =====
-- What flush_pending of RpcManager in src/core/rpc_manager.cpp transmits, over a transport that takes
-- everything and without a rate limit.
use styly_net_sync_godot.Base.{
  ℕ, zero, suc, ◌+◌, ◌≤◌, ◌≡◌, refl, sym, ap, ◌∙◌, subst, arith, inl, inr, true, false, Option,
  none, some, List, [], ◌∷◌, ◌++◌, ltb, leb, if◌then◌else◌, length, take, All, map, append-nil,
  append_assoc, le→leb, le→ltb, Bool-cases,
}
use styly_net_sync_godot.Base.Int.{ℤ}
use styly_net_sync_godot.Core.Link.{TakesAll, transmit-TakesAll, transmit-answer, transmit-sent}
use styly_net_sync_godot.Core.Rpc.Manager.{
  RpcManager, PendingRpc, try_send_now, send_message, try_consume_quota, flush_loop, flush_pending,
  targets_of, max_flush_per_tick, rpc_ttl, rpc_payload, send_to,
}

abbrev pub Sendable : PendingRpc → Type 0
Sendable p = (ts : List ℕ) × (targets_of p.target_client_nos ≡ some ts) × (length ts ≤ 255)

abbrev pub fresh : ℕ → List PendingRpc → List PendingRpc
fresh now [] = []
fresh now (p ∷ ps) = if ltb (p.enqueued_at + rpc_ttl) now then fresh now ps else p ∷ fresh now ps

abbrev or_empty : Option (List ℕ) → List ℕ
or_empty none = []
or_empty (some ts) = ts

abbrev pub pending_payload : ℤ → List ℕ → PendingRpc → List ℕ
pending_payload local_client_no device_id p =
    rpc_payload local_client_no device_id (or_empty (targets_of p.target_client_nos))
      p.function_name p.arguments

abbrev Ready : RpcManager → Type 0
Ready m = (m.rpc_limit ≡ 0) × TakesAll m.link.answer

send_to-sent :
    (local_client_no : ℤ) (device_id function_name : List ℕ) (arguments : List (List ℕ))
    (ts : List ℕ) (m : RpcManager)
    → length ts ≤ 255
    → Ready m
    → let (ok, m') = send_to local_client_no device_id function_name arguments (some ts) m in
      (ok ≡ true)
      × (m'.link.sent
          ≡ m.link.sent ++ (rpc_payload local_client_no device_id ts function_name arguments ∷ []))
      × Ready m'
unfolding send_to
send_to-sent local_client_no device_id function_name arguments ts m short (no_limit, takes) =
    let payload = rpc_payload local_client_no device_id ts function_name arguments in
    rw (le→ltb 255 (length ts) short) (
      transmit-TakesAll payload m.link takes,
      transmit-sent payload m.link takes,
      (no_limit, subst TakesAll (sym (transmit-answer payload m.link)) takes),
    )

send_message-taken :
    (local_client_no : ℤ) (device_id : List ℕ) (targets : List ℤ) (function_name : List ℕ)
    (arguments : List (List ℕ)) (m : RpcManager)
    → TakesAll m.link.answer
    → send_message local_client_no device_id targets function_name arguments m
      ≡ send_to local_client_no device_id function_name arguments (targets_of targets) m
unfolding send_message
send_message-taken local_client_no device_id targets function_name arguments m takes = ground arith

unlimited :
    (now rpc_limit window : ℕ) (hits : List ℕ)
    → rpc_limit ≡ 0
    → try_consume_quota now rpc_limit window hits ≡ (true, hits)
unfolding try_consume_quota
unlimited now rpc_limit window hits h = rw h

try_send_now-sent :
    (now : ℕ) (local_client_no : ℤ) (device_id : List ℕ) (p : PendingRpc) (m : RpcManager)
    → Sendable p
    → Ready m
    → let (ok, m') =
        try_send_now now local_client_no device_id p.target_client_nos p.function_name p.arguments
          m in
      (ok ≡ true)
      × (m'.link.sent ≡ m.link.sent ++ (pending_payload local_client_no device_id p ∷ []))
      × Ready m'
unfolding try_send_now
try_send_now-sent now local_client_no device_id p m (ts, fine, short) (no_limit, takes) =
    rw
      (
        unlimited now m.rpc_limit m.window m.rate_hits no_limit,
        send_message-taken local_client_no device_id p.target_client_nos p.function_name p.arguments
            m takes,
        fine,
      )
      (send_to-sent local_client_no device_id p.function_name p.arguments ts m short
        (no_limit, takes))

flush_loop-sent :
    (now : ℕ) (local_client_no : ℤ) (device_id : List ℕ) (sent left : ℕ) (ps : List PendingRpc)
    (m : RpcManager)
    → sent + left ≡ max_flush_per_tick
    → All Sendable ps
    → Ready m
    → (flush_loop now local_client_no device_id sent ps m).1.link.sent
      ≡ m.link.sent ++ map (pending_payload local_client_no device_id) (take left (fresh now ps))
unfolding flush_loop
flush_loop-sent now local_client_no device_id sent zero [] m total fine ready = sym (append-nil _)
flush_loop-sent now local_client_no device_id sent (suc left) [] m total fine ready =
    sym (append-nil _)
flush_loop-sent now local_client_no device_id sent zero (p ∷ ps) m total fine ready =
    rw (le→leb max_flush_per_tick sent (omega arith)) (sym (append-nil _))
flush_loop-sent now local_client_no device_id sent (suc left) (p ∷ ps) m total (one, fine) ready =
    let room : leb max_flush_per_tick sent ≡ false = ground arith in
    elim (Bool-cases (ltb (p.enqueued_at + rpc_ttl) now)) [
      | inl old ↦
          rw (room, old)
            (flush_loop-sent now local_client_no device_id sent (suc left) ps _ total fine ready)
      | inr young ↦
          let (ok, delivered, ready') =
            try_send_now-sent now local_client_no device_id p m one ready in
          let later = map (pending_payload local_client_no device_id) (take left (fresh now ps)) in
          rw (room, young, ok)
            (flush_loop-sent now local_client_no device_id (suc sent) left ps _ (omega arith) fine
                ready'
              ∙ (ap (λ out. out ++ later) delivered ∙ append_assoc m.link.sent (_ ∷ []) later))
    ]

-- If there is no rate limit, every target list fits and the transport takes whatever it is given, a
-- flush transmits the messages of the 10 oldest entries that have not expired, in their order.
pub flush_pending-sends :
    (now : ℕ) (local_client_no : ℤ) (device_id : List ℕ) (m : RpcManager)
    → m.rpc_limit ≡ 0
    → TakesAll m.link.answer
    → All Sendable m.pending
    → (flush_pending now true local_client_no device_id m).1.link.sent
      ≡ m.link.sent
        ++ map
            (pending_payload local_client_no device_id)
            (take max_flush_per_tick (fresh now m.pending))
unfolding flush_pending
flush_pending-sends now local_client_no device_id m no_limit takes fine =
    flush_loop-sent now local_client_no device_id 0 max_flush_per_tick m.pending m refl fine
      (no_limit, takes)

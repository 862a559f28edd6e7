-- ===== src/Core/Rpc/Queue.antt =====
-- The pending queue of RpcManager in src/core/rpc_manager.cpp: its bound, its order, and what becomes
-- of an entry that can never be sent.
use styly_net_sync_godot.Base.{
  ℕ, suc, ◌+◌, ◌-◌, ◌≤◌, ◌<◌, ◌≡◌, refl, sym, subst, arith, ◌↔◌, ◌⊎◌, inl, inr, true, false, Option,
  none, some, List, [], ◌∷◌, ◌++◌, ltb, leb, length, drop, length-drop, ltb→lt, ltb→le, lt→ltb,
  le→ltb, Bool-cases, Option-cases,
}
use styly_net_sync_godot.Base.Int.{ℤ}
use styly_net_sync_godot.Core.Rpc.Manager.{
  RpcManager, PendingRpc, trim, send, try_send_now, send_message, try_consume_quota, flush_loop,
  flush_pending, targets_of, max_pending_rpc, max_flush_per_tick, rpc_ttl, rate_limited, send_to,
}

-- The newest entries that the queue has room for.
trim_lem :
    (ps : List PendingRpc) (dropped : ℕ)
    → (trim ps dropped).0 ≡ drop (length ps - max_pending_rpc) ps
unfolding trim
trim_lem [] dropped = refl
trim_lem (p ∷ ps) dropped = elim (Bool-cases (ltb max_pending_rpc (length (p ∷ ps)))) [
  | inl over ↦ rw (over, trim_lem ps _, later (length ps) (ltb→lt _ _ over))
  | inr fits ↦ rw (fits, nothing (length ps) (ltb→le _ _ fits))
]
  where
    later : (n : ℕ) → 100 < suc n → suc n - 100 ≡ suc (n - 100)
    later n h = omega arith

    nothing : (n : ℕ) → suc n ≤ 100 → suc n - 100 ≡ 0
    nothing n h = omega arith

-- A call made before the connection is ready only queues the call: the queue keeps the newest 100
-- of the old entries and the new one, in their order, and nothing is transmitted.
pub send-queues :
    (now : ℕ) (local_client_no : ℤ) (device_id : List ℕ) (targets : List ℤ) (function_name : List ℕ)
    (arguments : List (List ℕ)) (m : RpcManager)
    → let entry : PendingRpc = record {
      function_name = function_name;
      arguments = arguments;
      target_client_nos = targets;
      enqueued_at = now;
    } in
      let all = m.pending ++ (entry ∷ []) in
      let m' = send now false local_client_no device_id targets function_name arguments m in
      (m'.pending ≡ drop (length all - max_pending_rpc) all)
      × (length m'.pending ≤ max_pending_rpc)
      × (m'.link ≡ m.link)
unfolding send
send-queues now local_client_no device_id targets function_name arguments m =
    let all = m.pending ++ (_ ∷ []) in
    let kept = trim_lem all m.dropped_overflow in
    (
      kept,
      subst (λ ps. length ps ≤ max_pending_rpc) (sym kept)
          (omega (arith, length-drop (length all - max_pending_rpc) all)),
      refl,
    )

-- The targets that do not fit a message.
abbrev pub Unsendable : List ℤ → Type 0
Unsendable targets =
    (targets_of targets ≡ none)
    ⊎ ((ts : List ℕ) × (targets_of targets ≡ some ts) × (255 < length ts))

module _ (local_client_no : ℤ) (device_id function_name : List ℕ) (arguments : List (List ℕ)) where
  send_to-pending :
      (ts : Option (List ℕ)) (m : RpcManager)
      → (send_to local_client_no device_id function_name arguments ts m).1.pending ≡ m.pending
  unfolding send_to
  send_to-pending none m = refl
  send_to-pending (some ts) m = ground arith

  send_message-pending :
      (targets : List ℤ) (m : RpcManager)
      → (send_message local_client_no device_id targets function_name arguments m).1.pending
        ≡ m.pending
  unfolding send_message
  send_message-pending targets m = ground (arith, send_to-pending (targets_of targets) m)

  -- A call leaves the queue alone.
  try_send_now-pending :
      (now : ℕ) (targets : List ℤ) (m : RpcManager)
      → (try_send_now now local_client_no device_id targets function_name arguments m).1.pending
        ≡ m.pending
  unfolding try_send_now rate_limited
  try_send_now-pending now targets m =
      elim (Bool-cases (try_consume_quota now m.rpc_limit m.window m.rate_hits).0) [
        | inl granted ↦ rw granted (send_message-pending targets _)
        | inr refused ↦ rw refused
      ]

  send_message-Unsendable :
      (targets : List ℤ) (m : RpcManager)
      → Unsendable targets
      → let (ok, m') = send_message local_client_no device_id targets function_name arguments m in
        (ok ≡ false) × (m'.link ≡ m.link)
  unfolding send_message send_to
  send_message-Unsendable targets m h = elim (Option-cases m.link.answer) [
    | inl empty ↦ rw empty (refl, refl)
    | inr (f, held) ↦ elim h [
      | inl missing ↦ rw (held, missing) (refl, refl)
      | inr (ts, fine, long) ↦ rw (held, fine, lt→ltb 255 (length ts) long) (refl, refl)
    ]
  ]

  -- A call whose targets do not fit a message fails, and transmits nothing.
  try_send_now-Unsendable :
      (now : ℕ) (targets : List ℤ) (m : RpcManager)
      → Unsendable targets
      → let (ok, m') =
          try_send_now now local_client_no device_id targets function_name arguments m in
        (ok ≡ false) × (m'.link ≡ m.link)
  unfolding try_send_now rate_limited
  try_send_now-Unsendable now targets m h =
      elim (Bool-cases (try_consume_quota now m.rpc_limit m.window m.rate_hits).0) [
        | inl granted ↦ rw granted (send_message-Unsendable targets _ h)
        | inr refused ↦ rw refused (refl, refl)
      ]

-- The order and the answer of the loop: it takes entries off the front only, and it answers true
-- exactly if it has taken them all.
flush_loop-order :
    (now : ℕ) (local_client_no : ℤ) (device_id : List ℕ) (sent : ℕ) (ps : List PendingRpc)
    (m : RpcManager)
    → let (ok, m') = flush_loop now local_client_no device_id sent ps m in
      ((n : ℕ) × (m'.pending ≡ drop n ps)) × ((ok ≡ true) ↔ (m'.pending ≡ []))
unfolding flush_loop
flush_loop-order now local_client_no device_id sent [] m = ((0, refl), (λ _. refl, λ _. refl))
flush_loop-order now local_client_no device_id sent (p ∷ ps) m =
    elim (Bool-cases (leb max_flush_per_tick sent)) [
      | inl full ↦ rw full ((0, refl), stays)
      | inr more ↦ elim (Bool-cases (ltb (p.enqueued_at + rpc_ttl) now)) [
        | inl old ↦
            let ((n, rest), answer) = flush_loop-order now local_client_no device_id sent ps _ in
            rw (more, old) ((suc n, rest), answer)
        | inr fresh ↦
            elim (Bool-cases
              (try_send_now now local_client_no device_id p.target_client_nos p.function_name
                p.arguments m).0) [
                  | inl ok ↦
                      let ((n, rest), answer) =
                        flush_loop-order now local_client_no device_id (suc sent) ps _ in
                      rw (more, fresh, ok) ((suc n, rest), answer)
                  | inr failed ↦ rw (more, fresh, failed) ((0, refl), stays)
                ]
      ]
    ]
  where
    stays : (false ≡ true) ↔ (p ∷ ps ≡ [])
    stays = ground arith

-- A flush takes entries off the front of the queue only, so the others keep their order, and once
-- the connection is ready it answers true exactly if the queue is then empty.
pub flush_pending-order :
    (now : ℕ) (local_client_no : ℤ) (device_id : List ℕ) (m : RpcManager)
    → let (ok, m') = flush_pending now true local_client_no device_id m in
      ((n : ℕ) × (m'.pending ≡ drop n m.pending)) × ((ok ≡ true) ↔ (m'.pending ≡ []))
unfolding flush_pending
flush_pending-order now local_client_no device_id m =
    flush_loop-order now local_client_no device_id 0 m.pending m

-- If the oldest entry has not expired and its targets do not fit a message (one is outside 0 to
-- 65535, or there are more than 255), a flush transmits nothing and answers false, and it leaves
-- the whole queue as it is, whatever stands behind that entry.
pub flush_pending-blocked :
    (now : ℕ) (local_client_no : ℤ) (device_id : List ℕ) (head : PendingRpc)
    (rest : List PendingRpc) (m : RpcManager)
    → m.pending ≡ head ∷ rest
    → now ≤ head.enqueued_at + rpc_ttl
    → Unsendable head.target_client_nos
    → let (ok, m') = flush_pending now true local_client_no device_id m in
      (ok ≡ false) × (m'.link ≡ m.link) × (m'.pending ≡ head ∷ rest)
unfolding flush_pending flush_loop
flush_pending-blocked now local_client_no device_id head rest m queue fresh h =
    let (failed, link) =
      try_send_now-Unsendable local_client_no device_id head.function_name head.arguments now
        head.target_client_nos m h in
    simp (queue, le→ltb (head.enqueued_at + rpc_ttl) now fresh, failed) (refl, link, refl)

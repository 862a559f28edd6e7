-- ===== src/Core/Rpc/Manager.antt =====
-- The state and the operations of RpcManager in src/core/rpc_manager.*. Times are whole
-- milliseconds counted from 1e9 seconds before the clock's zero, so that `last_warn_at_ = -1e9` is 0;
-- `a - b > c` is written `b + c < a`.
use styly_net_sync_godot.Base.{
  ℕ, suc, ◌+◌, ◌%◌, ◌^◌, Bool, true, false, Option, none, some, List, [], ◌∷◌, ◌++◌, ltb, leb, ◌==◌,
  if◌then◌else◌, length,
}
use styly_net_sync_godot.Base.Int.{ℤ, pos, negsuc}
use styly_net_sync_godot.Protocol.Session.{serialize_rpc}
use styly_net_sync_godot.Core.Link.{Link, transmit, client_number}
use styly_net_sync_godot.Core.Json.{encode_json_string_array}

abbrev pub max_pending_rpc : ℕ
max_pending_rpc = 100

abbrev pub rpc_ttl : ℕ
rpc_ttl = 5000

abbrev pub max_flush_per_tick : ℕ
max_flush_per_tick = 10

pub record PendingRpc : Type 0 where
  pub function_name : List ℕ
  pub arguments : List (List ℕ)
  pub target_client_nos : List ℤ
  pub enqueued_at : ℕ

pub record RpcManager : Type 0 where
  pub link : Link
  -- The deque of times, oldest first.
  pub rate_hits : List ℕ
  pub rpc_limit : ℕ
  pub window : ℕ
  pub warn_cooldown : ℕ
  pub last_warn_at : ℕ
  pub pending : List PendingRpc
  pub dropped_rate_limited : ℕ
  pub dropped_expired : ℕ
  pub dropped_overflow : ℕ

-- `std::max(least, n)`
abbrev pub at_least : ℕ → ℤ → ℕ
at_least least (pos n) = if ltb n least then least else n
at_least least (negsuc n) = least

unfoldable pub configure_rate_limit : ℤ → ℤ → ℤ → RpcManager → RpcManager
configure_rate_limit rpc_limit window warn_cooldown m = record m {
  rpc_limit = at_least 0 rpc_limit;
  window = at_least 10 window;
  warn_cooldown = at_least 0 warn_cooldown;
}

-- `while (!rate_hits_.empty() && now - front > window) pop_front();`
unfoldable pub drop_old : ℕ → ℕ → List ℕ → List ℕ
drop_old now window [] = []
drop_old now window (hit ∷ hits) =
    if ltb (hit + window) now then drop_old now window hits else hit ∷ hits

-- The answer of try_consume_quota and the hits that it leaves; its two outputs only feed the log.
unfoldable pub try_consume_quota : ℕ → ℕ → ℕ → List ℕ → Bool × List ℕ
try_consume_quota now rpc_limit window hits =
    if rpc_limit == 0
    then (true, hits)
    else let recent = drop_old now window hits in
      if leb rpc_limit (length recent) then (false, recent) else (true, recent ++ (now ∷ []))

-- A target that fits the message.
abbrev pub target_of : ℤ → Option ℕ
target_of (pos n) = if ltb 0xFFFF n then none else some n
target_of (negsuc n) = none

abbrev pub push_target : Option ℕ → Option (List ℕ) → Option (List ℕ)
push_target none rest = none
push_target (some t) none = none
push_target (some t) (some ts) = some (t ∷ ts)

-- The loop over the targets, which gives up at the first that is out of range.
unfoldable pub targets_of : List ℤ → Option (List ℕ)
targets_of [] = some []
targets_of (t ∷ ts) = push_target (target_of t) (targets_of ts)

unfoldable pub rpc_payload : ℤ → List ℕ → List ℕ → List ℕ → List (List ℕ) → List ℕ
rpc_payload local_client_no device_id targets function_name arguments = serialize_rpc (record {
  sender_client_no = client_number local_client_no;
  device_id = device_id;
  target_client_nos = targets;
  function_name = function_name;
  arguments_json = encode_json_string_array arguments;
})

abbrev pub with_link : RpcManager → Bool × Link → Bool × RpcManager
with_link m (ok, link) = (ok, record m { link = link })

-- The part of try_send_now behind the quota.
unfoldable pub send_to :
    ℤ → List ℕ → List ℕ → List (List ℕ) → Option (List ℕ) → RpcManager → Bool × RpcManager
send_to local_client_no device_id function_name arguments none m = (false, m)
send_to local_client_no device_id function_name arguments (some targets) m =
    if ltb 255 (length targets)
    then (false, m)
    else with_link m
        (transmit (rpc_payload local_client_no device_id targets function_name arguments) m.link)

unfoldable pub send_message :
    ℤ → List ℕ → List ℤ → List ℕ → List (List ℕ) → RpcManager → Bool × RpcManager
send_message local_client_no device_id targets function_name arguments m = elim m.link.answer [
  | none ↦ (false, m)
  | some _ ↦ send_to local_client_no device_id function_name arguments (targets_of targets) m
]

-- Count the refused call, and note the time of the warning if one is due.
unfoldable pub rate_limited : ℕ → RpcManager → RpcManager
rate_limited now m = record m {
  dropped_rate_limited = suc m.dropped_rate_limited % 2 ^ 64;
  last_warn_at = if leb (m.last_warn_at + m.warn_cooldown) now then now else m.last_warn_at;
}

unfoldable pub try_send_now :
    ℕ → ℤ → List ℕ → List ℤ → List ℕ → List (List ℕ) → RpcManager → Bool × RpcManager
try_send_now now local_client_no device_id targets function_name arguments m =
    let (granted, hits) = try_consume_quota now m.rpc_limit m.window m.rate_hits in
    if granted
    then send_message local_client_no device_id targets function_name arguments
        (record m { rate_hits = hits })
    else (false, rate_limited now (record m { rate_hits = hits }))

-- `while (pending_.size() > kMaxPendingRpc) pop_front();` with the number of pops.
unfoldable pub trim : List PendingRpc → ℕ → List PendingRpc × ℕ
trim [] dropped = ([], dropped)
trim (p ∷ ps) dropped =
    if ltb max_pending_rpc (length (p ∷ ps))
    then trim ps (suc dropped % 2 ^ 64)
    else (p ∷ ps, dropped)

unfoldable pub send :
    ℕ → Bool → ℤ → List ℕ → List ℤ → List ℕ → List (List ℕ) → RpcManager → RpcManager
send now true local_client_no device_id targets function_name arguments m =
    (try_send_now now local_client_no device_id targets function_name arguments m).1
send now false local_client_no device_id targets function_name arguments m =
    let entry : PendingRpc = record {
      function_name = function_name;
      arguments = arguments;
      target_client_nos = targets;
      enqueued_at = now;
    } in
    let (pending, dropped) = trim (m.pending ++ (entry ∷ [])) m.dropped_overflow in
    record m { pending = pending; dropped_overflow = dropped }

-- The loop of flush_pending over the queue, by the number of messages sent in this tick.
unfoldable pub flush_loop : ℕ → ℤ → List ℕ → ℕ → List PendingRpc → RpcManager → Bool × RpcManager
flush_loop now local_client_no device_id sent [] m = (true, record m { pending = [] })
flush_loop now local_client_no device_id sent (head ∷ rest) m =
    let expired =
      flush_loop now local_client_no device_id sent rest
        (record m { dropped_expired = suc m.dropped_expired % 2 ^ 64 }) in
    let (ok, m') =
      try_send_now now local_client_no device_id head.target_client_nos head.function_name
        head.arguments m in
    let next = flush_loop now local_client_no device_id (suc sent) rest m' in
    if leb max_flush_per_tick sent
    then (false, record m { pending = head ∷ rest })
    else if ltb (head.enqueued_at + rpc_ttl) now
    then expired
    else if ok
    then next
    else (false, record m' { pending = head ∷ rest })

unfoldable pub flush_pending : ℕ → Bool → ℤ → List ℕ → RpcManager → Bool × RpcManager
flush_pending now false local_client_no device_id m = (true, m)
flush_pending now true local_client_no device_id m =
    flush_loop now local_client_no device_id 0 m.pending m

unfoldable pub clear_pending : RpcManager → RpcManager
clear_pending m = record m { pending = []; rate_hits = [] }

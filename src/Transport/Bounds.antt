-- ===== src/Transport/Bounds.antt =====
-- The bound on the control outbox of src/transport/zmq_transport.cpp, over any sequence of steps.
use styly_net_sync_godot.Base.{
  ℕ, zero, suc, ◌+◌, ◌≤◌, ◌<◌, ◌≡◌, refl, sym, ◌∙◌, arith, Bool, true, false, Option, none, some,
  List, [], ◌∷◌, ◌++◌, append_assoc, ltb, leb, length, length-append, Bool-cases, inl, inr, leb→le,
  leb→lt, if_cases,
}
use styly_net_sync_godot.Base.Dict.{lookup}
use styly_net_sync_godot.Base.Keys.{nat_key}
use styly_net_sync_godot.Transport.Outbox.{
  OutboundPacket, Socket, Transport, control_ttl, control_outbox_max, control_drain_batch, held,
  control_queue, drain_loop, drain_control_sends, try_send_multipart, is_unusable,
  try_enqueue_control, set_latest_transform, set_latest_object_transform, clear_outgoing, send_slot,
  after_latest, try_send_latest_transform, after_object, send_object, send_objects, ids_of,
  payload_at, try_send_latest_object_transforms,
}

-- A message that the control lane accepts waits behind all others, one that it refuses changes
-- nothing there, and it accepts whenever fewer than 256 are in the outbox and the transport runs
-- without an error and is not stopping.
pub try_enqueue_control-outcome :
    (now : ℕ) (payload : List ℕ) (t : Transport)
    → let (ok, t') = try_enqueue_control now payload t in
      (ok ≡ true
        → control_queue t'
          ≡ control_queue t ++ (record { payload = payload; enqueued_at = now } ∷ []))
      × (ok ≡ false → control_queue t' ≡ control_queue t)
      × (length t.control_outbox < control_outbox_max → is_unusable t ≡ false → ok ≡ true)
unfolding try_enqueue_control control_queue
try_enqueue_control-outcome now payload t = elim (Bool-cases (is_unusable t)) [
  | inl unusable ↦ rw unusable (λ h. cc, λ h. refl, λ room usable. cc)
  | inr usable ↦ elim (Bool-cases (leb control_outbox_max (length t.control_outbox))) [
    | inl full ↦
        rw (usable, full) (λ h. cc, λ h. refl, λ room _. absurd (omega (arith, leb→le _ _ full)))
    | inr free ↦
        rw (usable, free)
          (
            λ h. sym (append_assoc (held t.pending_control) t.control_outbox (_ ∷ [])),
            λ h. cc,
            λ room _. refl,
          )
  ]
]

try_send_multipart-outbox :
    (payload : List ℕ) (socket : Socket) (t : Transport)
    → (try_send_multipart payload socket t).2.control_outbox ≡ t.control_outbox
unfolding try_send_multipart
try_send_multipart-outbox payload socket t = ground arith

le_suc : {a b : ℕ} → a ≤ b → a ≤ suc b
le_suc h = omega arith

drain_loop-le :
    (now left : ℕ) (queue : List OutboundPacket) (did_work : Bool) (socket : Socket) (t : Transport)
    → length (drain_loop now left queue did_work socket t).2.control_outbox ≤ length queue
unfolding drain_loop
drain_loop-le now left [] did_work socket t = omega arith
drain_loop-le now zero (packet ∷ queue) did_work socket t = omega arith
drain_loop-le now (suc left) (packet ∷ queue) did_work socket t =
    elim (Bool-cases (ltb (packet.enqueued_at + control_ttl) now)) [
      | inl old ↦ rw old (le_suc (drain_loop-le now (suc left) queue did_work socket _))
      | inr young ↦ elim (Bool-cases (try_send_multipart packet.payload socket t).0) [
        | inl ok ↦ rw (young, ok) (le_suc (drain_loop-le now left queue true _ _))
        | inr failed ↦ rw (young, failed) (omega arith)
      ]
    ]

-- The first packet leaves the outbox in any case.
drain_loop-lt :
    (now left : ℕ) (packet : OutboundPacket) (queue : List OutboundPacket) (did_work : Bool)
    (socket : Socket) (t : Transport)
    → length (drain_loop now (suc left) (packet ∷ queue) did_work socket t).2.control_outbox
      ≤ length queue
unfolding drain_loop
drain_loop-lt now left packet queue did_work socket t =
    elim (Bool-cases (ltb (packet.enqueued_at + control_ttl) now)) [
      | inl old ↦ rw old (drain_loop-le now (suc left) queue did_work socket _)
      | inr young ↦ elim (Bool-cases (try_send_multipart packet.payload socket t).0) [
        | inl ok ↦ rw (young, ok) (drain_loop-le now left queue true _ _)
        | inr failed ↦ rw (young, failed) (omega arith)
      ]
    ]

drain_control_sends-le :
    (now n : ℕ) (socket : Socket) (t : Transport)
    → length t.control_outbox ≤ n
    → length (drain_control_sends now socket t).2.control_outbox ≤ n
unfolding drain_control_sends control_queue
drain_control_sends-le now n socket t h =
    go (control_queue t) (queue_tail t.pending_control t.control_outbox)
  where
    -- The queue is empty, or what stands behind its first packet is in the outbox.
    queue_tail :
        (p : Option OutboundPacket) (outbox : List OutboundPacket)
        → length (held p ++ outbox) ≤ suc (length outbox)
    queue_tail none outbox = omega arith
    queue_tail (some packet) outbox = omega arith

    go :
        (queue : List OutboundPacket)
        → length queue ≤ suc (length t.control_outbox)
        → length (drain_loop now control_drain_batch queue false socket t).2.control_outbox ≤ n
    go [] few = omega (arith, drain_loop-le now 64 [] false socket t)
    go (packet ∷ queue) few = omega (arith, drain_loop-lt now 63 packet queue false socket t)

-- While a pose is sent, the game thread does nothing.
abbrev alone : Transport → Transport
alone t = t

after_latest-outbox :
    (payload : List ℕ) (r : Bool × Socket × Transport)
    → (after_latest alone payload r).2.control_outbox ≡ r.2.control_outbox
after_latest-outbox payload (false, socket, t) = refl
after_latest-outbox payload (true, socket, t) = refl

send_slot-outbox :
    (slot : Option OutboundPacket) (socket : Socket) (t : Transport)
    → (send_slot alone slot socket t).2.control_outbox ≡ t.control_outbox
send_slot-outbox none socket t = refl
send_slot-outbox (some packet) socket t =
    after_latest-outbox packet.payload (try_send_multipart packet.payload socket t)
    ∙ try_send_multipart-outbox packet.payload socket t

after_object-outbox :
    (object_id : ℕ) (payload : List ℕ) (r : Bool × Socket × Transport)
    → (after_object alone object_id payload r).2.control_outbox ≡ r.2.control_outbox
after_object-outbox object_id payload (false, socket, t) = refl
after_object-outbox object_id payload (true, socket, t) = refl

send_object-outbox :
    (object_id : ℕ) (payload : List ℕ) (socket : Socket) (t : Transport)
    → (send_object alone object_id payload socket t).2.control_outbox ≡ t.control_outbox
unfolding send_object
send_object-outbox object_id payload socket t =
    after_object-outbox object_id payload (try_send_multipart payload socket t)
    ∙ try_send_multipart-outbox payload socket t

found_cases :
    {A : Type 0} (P : A → Type 0) (o : Option OutboundPacket) {a b : A}
    → P a
    → P b
    → P (elim o [ none ↦ a | some packet ↦ b ])
found_cases P none p q = p
found_cases P (some packet) p q = q

send_objects-outbox :
    (object_ids : List ℕ) (did_work : Bool) (socket : Socket) (t : Transport)
    → (send_objects alone object_ids did_work socket t).2.control_outbox ≡ t.control_outbox
unfolding send_objects
send_objects-outbox [] did_work socket t = refl
send_objects-outbox (object_id ∷ object_ids) did_work socket t =
    let here = lookup object_id t.latest_object_transforms in
    let r = send_object alone object_id (payload_at here) socket t in
    let kept = send_object-outbox object_id (payload_at here) socket t in
    found_cases (λ (r : Bool × Socket × Transport). r.2.control_outbox ≡ t.control_outbox) here
      (send_objects-outbox object_ids did_work socket t)
      (if_cases (λ (r : Bool × Socket × Transport). r.2.control_outbox ≡ t.control_outbox) r.0
        (send_objects-outbox object_ids true r.1 r.2 ∙ kept) kept)

-- The steps of the game thread and of the network thread.
pub data Step : Type 0 where
  enqueues : ℕ → List ℕ → Step
  sets_transform : ℕ → List ℕ → Step
  sets_object : ℕ → ℕ → List ℕ → Step
  clears : Step
  drains : ℕ → Socket → Step
  sends_latest : Socket → Step
  sends_objects : Socket → Step

unfoldable pub step : Step → Transport → Transport
step (enqueues now payload) t = (try_enqueue_control now payload t).1
step (sets_transform now payload) t = set_latest_transform now payload t
step (sets_object now object_id payload) t = set_latest_object_transform now object_id payload t
step clears t = clear_outgoing t
step (drains now socket) t = (drain_control_sends now socket t).2
step (sends_latest socket) t = (try_send_latest_transform alone socket t).2
step (sends_objects socket) t = (try_send_latest_object_transforms alone socket t).2

unfoldable pub run : List Step → Transport → Transport
run [] t = t
run (s ∷ steps) t = run steps (step s t)

try_enqueue_control-le :
    (now : ℕ) (payload : List ℕ) (t : Transport)
    → length t.control_outbox ≤ control_outbox_max
    → length (try_enqueue_control now payload t).1.control_outbox ≤ control_outbox_max
unfolding try_enqueue_control
try_enqueue_control-le now payload t h = ground (
  arith,
  length-append t.control_outbox (record { payload = payload; enqueued_at = now } ∷ []),
  leb→lt control_outbox_max (length t.control_outbox),
)

step-le :
    (s : Step) (t : Transport)
    → length t.control_outbox ≤ control_outbox_max
    → length (step s t).control_outbox ≤ control_outbox_max
unfolding step set_latest_transform set_latest_object_transform clear_outgoing
    try_send_latest_transform try_send_latest_object_transforms
step-le (enqueues now payload) t h = try_enqueue_control-le now payload t h
step-le (sets_transform now payload) t h = ground arith
step-le (sets_object now object_id payload) t h = ground arith
step-le clears t h = omega arith
step-le (drains now socket) t h = drain_control_sends-le now control_outbox_max socket t h
step-le (sends_latest socket) t h = rw (send_slot-outbox t.latest_transform socket t) h
step-le (sends_objects socket) t h =
    rw (send_objects-outbox (ids_of t.latest_object_transforms) false socket t) h

-- Whatever steps of the game thread and of the network thread follow one another, the control
-- outbox never holds more than 256 packets, if it does not at the start.
pub run-le :
    (steps : List Step) (t : Transport)
    → length t.control_outbox ≤ control_outbox_max
    → length (run steps t).control_outbox ≤ control_outbox_max
unfolding run
run-le [] t h = h
run-le (s ∷ steps) t h = run-le steps (step s t) (step-le s t h)

-- ===== src/Transport/Control.antt =====
-- What drain_control_sends in src/transport/zmq_transport.cpp does with the control lane.
use styly_net_sync_godot.Base.{
  ℕ, zero, suc, ◌+◌, ◌≤◌, ◌≡◌, refl, sym, ap, ◌∙◌, arith, Bool, true, false, List, [], ◌∷◌, ◌++◌,
  map, append-nil, append_assoc, ltb, if◌then◌else◌, length, Bool-cases, inl, inr,
}
use styly_net_sync_godot.Transport.Outbox.{
  OutboundPacket, Socket, Transport, control_ttl, control_drain_batch, control_queue, drain_loop,
  drain_control_sends, try_send_multipart,
}

-- The packets that have not expired.
abbrev pub alive : ℕ → List OutboundPacket → List OutboundPacket
alive now [] = []
alive now (packet ∷ queue) =
    if ltb (packet.enqueued_at + control_ttl) now then alive now queue else packet ∷ alive now queue

pub try_send_multipart-taken :
    (payload : List ℕ) (socket : Socket) (t : Transport)
    → let (ok, socket', t') = try_send_multipart payload socket t in
      ok ≡ true → socket'.sent ≡ socket.sent ++ (payload ∷ [])
unfolding try_send_multipart
try_send_multipart-taken payload socket t h = ground arith

pub try_send_multipart-refused :
    (payload : List ℕ) (socket : Socket) (t : Transport)
    → let (ok, socket', t') = try_send_multipart payload socket t in
      ok ≡ false → socket'.sent ≡ socket.sent
unfolding try_send_multipart
try_send_multipart-refused payload socket t h = ground arith

-- A run of packets that a socket has taken, in front of what still waits.
abbrev pub Drained : (now left : ℕ) → List OutboundPacket → Socket → Socket → Transport → Type 0
Drained now left queue socket socket' t' =
    (out : List OutboundPacket) × (socket'.sent ≡ socket.sent ++ map (λ p. p.payload) out)
    × (alive now queue ≡ out ++ alive now (control_queue t'))
    × (length out ≤ left)

Drained-next :
    (now left : ℕ) (packet : OutboundPacket) (queue : List OutboundPacket)
    (socket socket' socket'' : Socket) (t' : Transport)
    → socket'.sent ≡ socket.sent ++ (packet.payload ∷ [])
    → Drained now left queue socket' socket'' t'
    → (out : List OutboundPacket) × (socket''.sent ≡ socket.sent ++ map (λ p. p.payload) out)
      × (packet ∷ alive now queue ≡ out ++ alive now (control_queue t'))
      × (length out ≤ suc left)
Drained-next now left packet queue socket socket' socket'' t' one (out, sent, rest, few) = (
  packet ∷ out,
  sent
      ∙ (ap (λ s. s ++ map (λ p. p.payload) out) one
          ∙ append_assoc socket.sent (packet.payload ∷ []) (map (λ p. p.payload) out)),
  ap (λ q. packet ∷ q) rest,
  omega (arith, few),
)

drain_loop-Drained :
    (now left : ℕ) (queue : List OutboundPacket) (did_work : Bool) (socket : Socket) (t : Transport)
    → let r = drain_loop now left queue did_work socket t in Drained now left queue socket r.1 r.2
unfolding drain_loop control_queue
drain_loop-Drained now left [] did_work socket t = ([], sym (append-nil _), refl, omega arith)
drain_loop-Drained now zero (packet ∷ queue) did_work socket t =
    ([], sym (append-nil _), refl, omega arith)
drain_loop-Drained now (suc left) (packet ∷ queue) did_work socket t =
    elim (Bool-cases (ltb (packet.enqueued_at + control_ttl) now)) [
      | inl old ↦ rw old (drain_loop-Drained now (suc left) queue did_work socket _)
      | inr young ↦ elim (Bool-cases (try_send_multipart packet.payload socket t).0) [
        | inl ok ↦
            let r = try_send_multipart packet.payload socket t in
            let d = drain_loop now left queue true r.1 r.2 in
            rw (young, ok)
              (Drained-next now left packet queue socket r.1 d.1 d.2
                (try_send_multipart-taken packet.payload socket t ok)
                (drain_loop-Drained now left queue true r.1 r.2))
        | inr failed ↦
            rw (young, failed)
              (
                [],
                try_send_multipart-refused packet.payload socket t failed ∙ sym (append-nil _),
                rw young,
                omega arith,
              )
      ]
    ]

-- A drain of the control lane transmits at most 64 messages, and nothing is lost or overtaken: the
-- waiting packets that have not expired are the transmitted ones, oldest first, followed by those
-- that still wait, in their order, whatever the socket answers.
pub drain_control_sends-Drained :
    (now : ℕ) (socket : Socket) (t : Transport)
    → let r = drain_control_sends now socket t in
      (out : List OutboundPacket) × (r.1.sent ≡ socket.sent ++ map (λ p. p.payload) out)
      × (alive now (control_queue t) ≡ out ++ alive now (control_queue r.2))
      × (length out ≤ control_drain_batch)
unfolding drain_control_sends
drain_control_sends-Drained now socket t =
    drain_loop-Drained now control_drain_batch (control_queue t) false socket t

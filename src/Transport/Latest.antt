-- ===== src/Transport/Latest.antt =====
-- The latest-wins slots of ZmqTransport in src/transport/zmq_transport.cpp against the game thread.
use styly_net_sync_godot.Base.{
  ℕ, ◌≡◌, ◌⊎◌, refl, sym, ap, ◌∙◌, Bool, true, false, Option, none, some, List, [], ◌∷◌, ◌++◌,
  Bool-cases, inl, inr, subst,
}
use styly_net_sync_godot.Base.Keys.{bytes_eq, bytes_eq_iff}
use styly_net_sync_godot.Transport.Outbox.{
  OutboundPacket, Socket, Transport, Meanwhile, try_send_multipart, clear_sent, after_latest,
  send_slot, try_send_latest_transform,
}
use styly_net_sync_godot.Transport.Control.{try_send_multipart-taken}

-- The slot after a send is what the game thread left there, or it is empty and its payload has gone out last.
abbrev pub KeepsLatest :
    Option OutboundPacket → Option OutboundPacket → List (List ℕ) → List (List ℕ) → Type 0
KeepsLatest left slot before after =
    (slot ≡ left)
    ⊎ ((packet : OutboundPacket) × (left ≡ some packet)
        × (slot ≡ none)
        × (after ≡ before ++ (packet.payload ∷ [])))

clear_sent-KeepsLatest :
    (payload : List ℕ) (left : Option OutboundPacket) (before after : List (List ℕ))
    → after ≡ before ++ (payload ∷ [])
    → KeepsLatest left (clear_sent payload left) before after
clear_sent-KeepsLatest payload none before after h = inl refl
clear_sent-KeepsLatest payload (some packet) before after h =
    elim (Bool-cases (bytes_eq packet.payload payload)) [
      | inl same ↦ inr (
        packet,
        refl,
        rw same,
        h ∙ ap (λ p. before ++ (p ∷ [])) (sym ((bytes_eq_iff packet.payload payload).0 same)),
      )
      | inr other ↦ inl (rw other)
    ]

after_latest-KeepsLatest :
    (meanwhile : Meanwhile) (payload : List ℕ) (before : List (List ℕ))
    (r : Bool × Socket × Transport)
    → (r.0 ≡ true → r.1.sent ≡ before ++ (payload ∷ []))
    → let r' = after_latest meanwhile payload r in
      KeepsLatest (meanwhile r.2).latest_transform r'.2.latest_transform before r'.1.sent
after_latest-KeepsLatest meanwhile payload before (false, socket, t) h = inl refl
after_latest-KeepsLatest meanwhile payload before (true, socket, t) h =
    clear_sent-KeepsLatest payload (meanwhile t).latest_transform before socket.sent (h refl)

send_slot-KeepsLatest :
    (meanwhile : Meanwhile) (packet : OutboundPacket) (socket : Socket) (t : Transport)
    → let r = send_slot meanwhile (some packet) socket t in
      KeepsLatest
        (meanwhile (try_send_multipart packet.payload socket t).2).latest_transform
        r.2.latest_transform
        socket.sent
        r.1.sent
send_slot-KeepsLatest meanwhile packet socket t =
    after_latest-KeepsLatest meanwhile packet.payload socket.sent
      (try_send_multipart packet.payload socket t)
      (try_send_multipart-taken packet.payload socket t)

-- Sending the latest avatar pose does not lose what the game thread sets meanwhile: if there is a
-- pose to send, the slot holds afterwards what the game thread's steps during the send left in it,
-- or it is empty and the payload that they left is the one that went out last.
pub try_send_latest_transform-KeepsLatest :
    (meanwhile : Meanwhile) (packet : OutboundPacket) (socket : Socket) (t : Transport)
    → t.latest_transform ≡ some packet
    → let r = try_send_latest_transform meanwhile socket t in
      KeepsLatest
        (meanwhile (try_send_multipart packet.payload socket t).2).latest_transform
        r.2.latest_transform
        socket.sent
        r.1.sent
unfolding try_send_latest_transform
try_send_latest_transform-KeepsLatest meanwhile packet socket t h =
    subst
      (λ slot.
        let r = send_slot meanwhile slot socket t in
        KeepsLatest (meanwhile (try_send_multipart packet.payload socket t).2).latest_transform
          r.2.latest_transform socket.sent r.1.sent)
      (sym h) (send_slot-KeepsLatest meanwhile packet socket t)

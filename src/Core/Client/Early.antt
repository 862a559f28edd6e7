-- ===== src/Core/Client/Early.antt =====
-- What the control lane of src/core/netsync_client.cpp carries at the start of a connection.
use styly_net_sync_godot.Base.{
  ℕ, ◌≡◌, refl, sym, Bool, true, false, not, ◌&&◌, List, [], ◌∷◌, ◌++◌, ◌==◌,
}
use styly_net_sync_godot.Base.{ap, ◌∙◌, subst, if_cases, length}
use styly_net_sync_godot.Base.Int.{ℤ}
use styly_net_sync_godot.Core.Link.{Link, TakesAll, transmit-TakesAll, transmit-sent}
use styly_net_sync_godot.Protocol.Session.{serialize_client_hello}
use styly_net_sync_godot.Protocol.Ownership.{
  ownership_op_request, serialize_object_ownership_request,
}
use styly_net_sync_godot.Protocol.Pose.Double.{Double}
use styly_net_sync_godot.Core.Objects.{ObjectManager, request_ownership, send_ownership_request}
use styly_net_sync_godot.Core.Client.{
  Client, Event, disconnected, connecting, ready, error, ClientConfig, ConnectionState, connected,
  synchronizing, state_changed, begin, begin_transport, push_log, connect, may_connect, same_state,
  set_state,
}
use styly_net_sync_godot.Core.Client.Poll.{greet, enqueue_hello}
use styly_net_sync_godot.Core.Client.Calls.{request_object_ownership}

no_state : false ≡ true → ⊥
no_state e = cc

module _ {W : Type 0} where
  -- What greet does, by the state and whether the hello was enqueued.
  abbrev pub Greets : Client W → List Event × Client W → Type 0
  Greets c (events, c') =
      let due = same_state c.state connected && not c.hello_enqueued in
      (due ≡ true
        → (c'.link.sent
            ≡ c.link.sent ++ (serialize_client_hello c.config.device_id c.config.stealth_mode ∷ []))
          × (c'.hello_enqueued ≡ true)
          × (c'.state ≡ synchronizing)
          × (events ≡ state_changed synchronizing ∷ []))
      × (due ≡ false → (c'.link ≡ c.link) × (c'.state ≡ c.state) × (events ≡ []))

  greet_from :
      (now : ℕ) (s : ConnectionState) (h : Bool) (c : Client W)
      → TakesAll c.link.answer
      → Greets
          (record c { state = s; hello_enqueued = h })
          (greet now (record c { state = s; hello_enqueued = h }))
  unfolding greet enqueue_hello set_state
  greet_from now disconnected h c takes = ((λ e. absurd (no_state e)), (λ _. (refl, refl, refl)))
  greet_from now connecting h c takes = ((λ e. absurd (no_state e)), (λ _. (refl, refl, refl)))
  greet_from now connected true c takes = ((λ e. absurd (no_state e)), (λ _. (refl, refl, refl)))
  greet_from now connected false c takes =
      let hello = serialize_client_hello c.config.device_id c.config.stealth_mode in
      rw (transmit-TakesAll hello c.link takes) (
        (λ _. (transmit-sent hello c.link takes, refl, refl, refl)),
        (λ e. absurd (no_state (sym e))),
      )
  greet_from now synchronizing h c takes = ((λ e. absurd (no_state e)), (λ _. (refl, refl, refl)))
  greet_from now ready h c takes = ((λ e. absurd (no_state e)), (λ _. (refl, refl, refl)))
  greet_from now error h c takes = ((λ e. absurd (no_state e)), (λ _. (refl, refl, refl)))

  -- In the connected state, before the hello, a transport that takes it gets the hello as the next
  -- control message, with the device id and the stealth flag of the configuration, and the client
  -- goes on to synchronizing. In any other state nothing is sent, and the state stays.
  pub greet-hello : (now : ℕ) (c : Client W) → TakesAll c.link.answer → Greets c (greet now c)
  greet-hello now c takes = greet_from now c.state c.hello_enqueued c takes

module _ {W : Type 0} where
  begin_transport-keeps :
      (address : List ℕ) (control transform sub : ℤ) (c : Client W)
      → let c' = begin_transport address control transform sub c in
        (c'.link ≡ c.link) × (c'.hello_enqueued ≡ false) × (c'.objects ≡ c.objects)
  unfolding begin_transport push_log
  begin_transport-keeps address control transform sub c =
      if_cases
        (λ (c' : Client W).
          (c'.link ≡ c.link) × (c'.hello_enqueued ≡ false) × (c'.objects ≡ c.objects))
        (c.starts (length c.commands)) (refl, refl, refl) (refl, refl, refl)

  request_ownership-sent :
      (id : ℕ) (m : ObjectManager W)
      → (id == 0) ≡ false
      → TakesAll m.link.answer
      → (request_ownership id m).1.link.sent
        ≡ m.link.sent
          ++ (serialize_object_ownership_request (record {
            device_id = m.local_device_id;
            operation_type = ownership_op_request;
            object_id = id;
          })
              ∷ [])
  unfolding request_ownership send_ownership_request
  request_ownership-sent id m h takes = rw h (transmit-sent _ m.link takes)

module _ {W : Type 0} ⦃d : Double W⦄ where
  connect-address :
      (config : ClientConfig W) (c : Client W) (b : ℕ) (address : List ℕ)
      → may_connect c.state ≡ true
      → config.server_address ≡ b ∷ address
      → connect config c ≡ (
        true,
        begin_transport
            (b ∷ address)
            config.control_port
            config.transform_port
            config.sub_port
            (record (begin config c) { resolved_address = b ∷ address }),
      )
  unfolding connect
  connect-address config c b address may e = rw (may, e) refl

  -- A call made right after connect, before the transport has connected, is sent before the hello:
  -- the request of an object, over a transport that takes it, is the first control message.
  pub request_object_ownership-before_hello :
      (config : ClientConfig W) (c : Client W) (b : ℕ) (address : List ℕ) (id : ℕ)
      → may_connect c.state ≡ true
      → config.server_address ≡ b ∷ address
      → (id == 0) ≡ false
      → TakesAll c.link.answer
      → let c1 = (connect config c).1 in
        let c2 = (request_object_ownership id c1).1 in
        ((connect config c).0 ≡ true)
        × (c1.link.sent ≡ c.link.sent)
        × (c2.hello_enqueued ≡ false)
        × (c2.link.sent
            ≡ c.link.sent
              ++ (serialize_object_ownership_request (record {
                device_id = config.device_id;
                operation_type = ownership_op_request;
                object_id = id;
              })
                  ∷ []))
  unfolding connect request_object_ownership
  request_object_ownership-before_hello config c b address id may e h takes =
      let c0 = record (begin config c) { resolved_address = b ∷ address } in
      let c1 =
        begin_transport (b ∷ address) c0.config.control_port c0.config.transform_port
          c0.config.sub_port c0 in
      let (link, early, objects) =
        begin_transport-keeps (b ∷ address) c0.config.control_port c0.config.transform_port
          c0.config.sub_port c0 in
      rw (connect-address config c b address may e) (
        refl,
        ap (λ (l : Link). l.sent) link,
        early,
        request_ownership-sent id (record c1.objects { link = c1.link }) h
              (subst (λ (l : Link). TakesAll l.answer) (sym link) takes)
            ∙ (ap (λ (l : Link). l.sent ++ (asked c1.objects ∷ [])) link
                ∙ ap (λ (o : ObjectManager W). c0.link.sent ++ (asked o ∷ [])) objects),
      )
    where
      asked : ObjectManager W → List ℕ
      asked o = serialize_object_ownership_request (record {
        device_id = o.local_device_id;
        operation_type = ownership_op_request;
        object_id = id;
      })

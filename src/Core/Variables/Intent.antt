-- ===== src/Core/Variables/Intent.antt =====
-- What setting a variable of a NetworkVariableManager does, and that a tick delivers it.
use styly_net_sync_godot.Base.{
  ℕ, ◌≡◌, refl, ◌⊎◌, inl, inr, Bool, true, false, not, ◌&&◌, none, some, List, Bool-cases, leb,
  length, length-append, ◌≤◌, ◌+◌, arith, [], ◌∷◌, ◌++◌, ap, ◌∙◌, append_assoc, All,
}
use styly_net_sync_godot.Base.Int.{ℤ}
use styly_net_sync_godot.Base.Keys.{int_key, bytes_key, pair_key}
use styly_net_sync_godot.Base.Dict.{lookup, has}
use styly_net_sync_godot.Core.Link.{TakesAll}
use styly_net_sync_godot.Core.Variables.Lane.{flush_pending}
use styly_net_sync_godot.Core.Variables.Lane.Delivery.{
  intent, submit-intent, AllDue, flush_pending-delivers,
}
use styly_net_sync_godot.Core.Variables.Lane.Wire.{
  All-append, AreMessages, Reaches, Reaches-left, Reaches-right, flush_pending-Reaches,
}
use styly_net_sync_godot.Core.Variables.Manager.{
  Manager, ClientKey, max_global_vars, max_client_vars, validate_name, validate_value,
  global_payload, client_payload, set_global, set_client, or_empty, tick,
}
use styly_net_sync_godot.Core.Variables.Incoming.{IsPaired}

-- The three guards of `set_global`.
unfoldable pub accepts_global : List ℕ → List ℕ → Manager → Bool
accepts_global name value m =
    validate_name name
    && (validate_value value
        && not (leb max_global_vars (length m.globals) && not (has name m.globals)))

-- Setting a global variable is refused, and then nothing changes, exactly when the name or the
-- value is invalid or the table is full and lacks the name. Otherwise it succeeds, the value is the
-- intent for the name whatever the transport answers, and the table of values stays as it is.
pub set_global_outcome :
    (now : ℕ) (name value : List ℕ) (m : Manager)
    → ((accepts_global name value m ≡ false) × (set_global now name value m ≡ (false, m)))
      ⊎ ((accepts_global name value m ≡ true)
          × ((set_global now name value m).0 ≡ true)
          × (intent name (set_global now name value m).1.global_lane ≡ some value)
          × ((set_global now name value m).1.globals ≡ m.globals))
unfolding set_global accepts_global
set_global_outcome now name value m = elim (Bool-cases (validate_name name)) [
  | inr bad_name ↦ rw bad_name (inl (refl, refl))
  | inl good_name ↦ rw good_name (elim (Bool-cases (validate_value value)) [
    | inr bad_value ↦ rw bad_value (inl (refl, refl))
    | inl good_value ↦
        rw good_value
          (elim (Bool-cases (leb max_global_vars (length m.globals) && not (has name m.globals))) [
            | inl full ↦ rw full (inl (refl, refl))
            | inr room ↦ rw room (
                inr (
                  refl,
                  refl,
                  submit-intent now (global_payload m name value) name value m.global_lane m.link,
                  refl,
                ))
          ])
  ])
]

-- Where setting a client variable succeeds, the value is the intent for its key, whatever the
-- transport answers.
pub set_client-intent :
    (now : ℕ) (target : ℤ) (name value : List ℕ) (m : Manager)
    → (set_client now target name value m).0 ≡ true
    → intent (target, name) (set_client now target name value m).1.client_lane ≡ some value
unfolding set_client
set_client-intent now target name value m h = elim (Bool-cases (validate_name name)) [
  | inr bad_name ↦ cc (rw bad_name at h)
  | inl good_name ↦ elim (Bool-cases (validate_value value)) [
    | inr bad_value ↦ cc (rw (good_name, bad_value) at h)
    | inl good_value ↦
        let variables = or_empty (lookup target m.client_variables) in
        elim (Bool-cases (leb max_client_vars (length variables) && not (has name variables))) [
          | inl full ↦ cc (rw (good_name, good_value, full) at h)
          | inr room ↦
              rw (good_name, good_value, room)
                (submit-intent now (client_payload m (target, name) value) (target, name) value
                  m.client_lane m.link)
        ]
  ]
]

-- A message is that of a variable that waits.
abbrev pub IsMessage : Manager → List ℕ → Type 0
IsMessage m payload =
    ((name : List ℕ) × (value : List ℕ) × (lookup name m.global_lane.pending ≡ some value)
      × (payload ≡ global_payload m name value))
    ⊎ ((key : ClientKey) × (value : List ℕ) × (lookup key m.client_lane.pending ≡ some value)
        × (payload ≡ client_payload m key value))

global_messages :
    (m : Manager) (new : List (List ℕ))
    → AreMessages (global_payload m) m.global_lane.pending new
    → All (IsMessage m) new
global_messages m [] h = tt
global_messages m (payload ∷ rest) (is, h) = (inl is, global_messages m rest h)

client_messages :
    (m : Manager) (new : List (List ℕ))
    → AreMessages (client_payload m) m.client_lane.pending new
    → All (IsMessage m) new
client_messages m [] h = tt
client_messages m (payload ∷ rest) (is, h) = (inr is, client_messages m rest h)

-- The messages that are sent: there are at most as many as deadlines, each is that of a variable
-- that waits, and the values that wait for
-- the global variable `name` and for the client variable `key` are sent, or were sent last.
abbrev pub OnWire : Manager → List ℕ → ClientKey → List (List ℕ) → Type 0
OnWire m name key new =
    (length new ≤ length m.global_lane.due + length m.client_lane.due)
    × All (IsMessage m) new
    × Reaches (global_payload m) name (lookup name m.global_lane.pending)
        (lookup name m.global_lane.last_sent) new
    × Reaches (client_payload m) key (lookup key m.client_lane.pending)
        (lookup key m.client_lane.last_sent) new

-- A tick past every deadline, over a transport that takes what it is given, reports success and
-- leaves no variable pending. What it sends, behind what was sent before, are messages of variables
-- that wait, and the message of each that waits is among them, unless its value was the last one
-- sent; there are at most as many as deadlines. The record of what was sent last then has what was
-- last set for each. Pending values and deadlines must be paired before.
pub tick-delivers :
    (now : ℕ) (m : Manager) (name : List ℕ) (key : ClientKey)
    → IsPaired m
    → AllDue now m.global_lane
    → AllDue now m.client_lane
    → TakesAll m.link.answer
    → ((tick now m).0 ≡ true)
      × ((new : List (List ℕ)) × ((tick now m).1.link.sent ≡ m.link.sent ++ new)
          × OnWire m name key new)
      × (lookup name (tick now m).1.global_lane.pending ≡ none)
      × (lookup name (tick now m).1.global_lane.last_sent ≡ intent name m.global_lane)
      × (lookup key (tick now m).1.client_lane.pending ≡ none)
      × (lookup key (tick now m).1.client_lane.last_sent ≡ intent key m.client_lane)
unfolding tick
tick-delivers now m name key v past past' takes =
    let link = (flush_pending (global_payload m) now m.global_lane m.link).2 in
    let g =
      flush_pending-delivers (global_payload m) now m.global_lane m.link name v.global past takes in
    let c =
      flush_pending-delivers (client_payload m) now m.client_lane link key v.client past' g.3 in
    let (globals, ends, reached, are, few) =
      flush_pending-Reaches (global_payload m) now m.global_lane m.link name v.global past takes in
    let (clients, ends', reached', are', few') =
      flush_pending-Reaches (client_payload m) now m.client_lane link key v.client past' g.3 in
    (
      rw (g.0, c.0),
      (
        globals ++ clients,
        ends' ∙ ap (λ s. s ++ clients) ends ∙ append_assoc m.link.sent globals clients,
        (
          omega (arith, few, few', length-append globals clients),
          All-append (IsMessage m) globals clients (global_messages m globals are)
              (client_messages m clients are'),
          Reaches-left (global_payload m) name (lookup name m.global_lane.pending)
              (lookup name m.global_lane.last_sent) globals clients reached,
          Reaches-right (client_payload m) key (lookup key m.client_lane.pending)
              (lookup key m.client_lane.last_sent) globals clients reached',
        ),
      ),
      g.1,
      g.2,
      c.1,
      c.2,
    )

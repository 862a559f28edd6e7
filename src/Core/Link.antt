-- ===== src/Core/Link.antt =====
-- The `ControlSender` callback that the managers of src/core hold. The transport behind it may
-- answer every call differently, so the answer is a function of the number of the call and of the
-- payload. The accepted payloads are kept, oldest first.
use styly_net_sync_godot.Base.{
  ℕ, suc, ◌%◌, ◌^◌, ◌<◌, ◌≡◌, refl, arith, Bool, true, false, Option, none, some, List, [], ◌∷◌,
  ◌++◌, if◌then◌else◌,
}
use styly_net_sync_godot.Base.Int.{ℤ, pos, negsuc}

pub record Link : Type 0 where
  -- `none` is an empty `std::function`.
  pub answer : Option (ℕ → List ℕ → Bool)
  pub calls : ℕ
  pub sent : List (List ℕ)

unfoldable pub transmit_by : Option (ℕ → List ℕ → Bool) → List ℕ → Link → Bool × Link
transmit_by none payload link = (false, link)
transmit_by (some f) payload link =
    if f link.calls payload
    then (true, record link { calls = suc link.calls; sent = link.sent ++ (payload ∷ []) })
    else (false, record link { calls = suc link.calls })

-- `if (!send_) return false; ... return send_(payload);`
unfoldable pub transmit : List ℕ → Link → Bool × Link
unfolding transmit_by
transmit payload link = transmit_by link.answer payload link

-- `static_cast<uint16_t>(n < 0 ? 0 : n)`
abbrev pub client_number : ℤ → ℕ
client_number (pos n) = n % 2 ^ 16
client_number (negsuc n) = 0

pub client_number-lt : (n : ℤ) → client_number n < 2 ^ 16
client_number-lt (pos n) = omega arith
client_number-lt (negsuc n) = omega arith

-- A transport that takes whatever it is given.
abbrev pub TakesAll : Option (ℕ → List ℕ → Bool) → Type 0
TakesAll none = ⊥
TakesAll (some f) = (n : ℕ) (payload : List ℕ) → f n payload ≡ true

transmit_by-TakesAll :
    (answer : Option (ℕ → List ℕ → Bool)) (payload : List ℕ) (link : Link)
    → TakesAll answer
    → (transmit_by answer payload link).0 ≡ true
unfolding transmit_by
transmit_by-TakesAll none payload link h = absurd h
transmit_by-TakesAll (some f) payload link h = rw (h link.calls payload)

pub transmit-TakesAll :
    (payload : List ℕ) (link : Link) → TakesAll link.answer → (transmit payload link).0 ≡ true
unfolding transmit
transmit-TakesAll payload link h = transmit_by-TakesAll link.answer payload link h

transmit_by-sent :
    (answer : Option (ℕ → List ℕ → Bool)) (payload : List ℕ) (link : Link)
    → TakesAll answer
    → (transmit_by answer payload link).1.sent ≡ link.sent ++ (payload ∷ [])
unfolding transmit_by
transmit_by-sent none payload link h = absurd h
transmit_by-sent (some f) payload link h = rw (h link.calls payload)

pub transmit-sent :
    (payload : List ℕ) (link : Link)
    → TakesAll link.answer
    → (transmit payload link).1.sent ≡ link.sent ++ (payload ∷ [])
unfolding transmit
transmit-sent payload link h = transmit_by-sent link.answer payload link h

transmit_by-answer :
    (answer : Option (ℕ → List ℕ → Bool)) (payload : List ℕ) (link : Link)
    → (transmit_by answer payload link).1.answer ≡ link.answer
unfolding transmit_by
transmit_by-answer none payload link = refl
transmit_by-answer (some f) payload link = ground arith

pub transmit-answer :
    (payload : List ℕ) (link : Link) → (transmit payload link).1.answer ≡ link.answer
unfolding transmit
transmit-answer payload link = transmit_by-answer link.answer payload link

-- ===== src/Transport/Endpoint.antt =====
-- build_endpoint of src/transport/zmq_transport.cpp: the endpoint of a server address and a port.
use styly_net_sync_godot.Base.{
  ℕ, zero, suc, ◌+◌, ◌/◌, ◌%◌, ◌≡◌, refl, ap, ◌∙◌, arith, Bool, true, false, ◌&&◌, Option, none,
  some, List, [], ◌∷◌, ◌++◌, ◌==◌, if◌then◌else◌, All, length, take, drop, take-append,
}
use styly_net_sync_godot.Base.Int.{ℤ, pos, negsuc}
use styly_net_sync_godot.Transport.Discovery.{scheme, is_digit}

abbrev pub colon : ℕ
colon = b':'

-- `std::to_string`: the digits of a number in front of a text. A number has at most as many digits
-- as its value plus one.
abbrev digits_before : ℕ → ℕ → List ℕ → List ℕ
digits_before zero n text = text
digits_before (suc fuel) n text =
    let digit = b'0' + n % 10 in
    let more = digits_before fuel (n / 10) (digit ∷ text) in
    if n / 10 == 0 then digit ∷ text else more

abbrev pub to_string : ℤ → List ℕ
to_string (pos n) = digits_before (suc n) n []
to_string (negsuc n) = b'-' ∷ digits_before (suc (suc n)) (suc n) []

abbrev pub starts_with : List ℕ → List ℕ → Bool
starts_with [] text = true
starts_with (p ∷ prefix) [] = false
starts_with (p ∷ prefix) (c ∷ text) = p == c && starts_with prefix text

abbrev one_more : Option ℕ → Option ℕ
one_more none = none
one_more (some i) = some (suc i)

-- The first and the last place of a character.
abbrev pub find : ℕ → List ℕ → Option ℕ
find b [] = none
find b (c ∷ text) = let rest = find b text in if c == b then some 0 else one_more rest

abbrev pub rfind : ℕ → List ℕ → Option ℕ
rfind b [] = none
rfind b (c ∷ text) = elim (rfind b text) [
  | some i ↦ some (suc i)
  | none ↦ if c == b then some 0 else none
]

abbrev is_at : ℕ → Option ℕ → Bool
is_at i none = false
is_at i (some j) = j == i

abbrev is_absent : Option ℕ → Bool
is_absent none = true
is_absent (some i) = false

abbrev each_digit : List ℕ → Bool
each_digit [] = true
each_digit (c ∷ text) = is_digit c && each_digit text

-- At least one character, and digits only.
abbrev all_digits : List ℕ → Bool
all_digits [] = false
all_digits (c ∷ text) = each_digit (c ∷ text)

abbrev strip_at : Option ℕ → List ℕ → List ℕ
strip_at none host = host
strip_at (some i) host =
    if is_absent (find b']' host) && is_at i (find colon host)
    then if all_digits (drop (i + 1) host) then take i host else host
    else host

unfoldable pub build_endpoint : List ℕ → ℤ → List ℕ
build_endpoint server_address port =
    let host =
      if starts_with scheme server_address
      then drop (length scheme) server_address
      else server_address in
    scheme ++ (strip_at (rfind colon host) host ++ (colon ∷ to_string port))

-- Neither a colon nor a closing bracket.
abbrev pub IsHost : List ℕ → Type 0
IsHost = All (λ c. ((c == colon) ≡ false) × ((c == b']') ≡ false))

abbrev pub Digits : List ℕ → Type 0
Digits = All (λ c. is_digit c ≡ true)

starts_with-host :
    (prefix text : List ℕ)
    → All (λ c. (c == colon) ≡ false) prefix
    → IsHost text
    → starts_with (prefix ++ (colon ∷ b'/' ∷ b'/' ∷ [])) text ≡ false
starts_with-host [] [] hp h = refl
starts_with-host [] (c ∷ text) hp h = ground (arith, h.0.0)
starts_with-host (p ∷ prefix) [] hp h = refl
starts_with-host (p ∷ prefix) (c ∷ text) hp h =
    ground (arith, starts_with-host prefix text hp.1 h.1)

starts_with-port :
    (prefix text : List ℕ) (b : ℕ) (ds : List ℕ)
    → All (λ c. (c == colon) ≡ false) prefix
    → IsHost text
    → is_digit b ≡ true
    → starts_with (prefix ++ (colon ∷ b'/' ∷ b'/' ∷ [])) (text ++ (colon ∷ b ∷ ds)) ≡ false
starts_with-port [] [] b ds hp h d = ground (arith, d)
starts_with-port [] (c ∷ text) b ds hp h d = ground (arith, h.0.0)
starts_with-port (p ∷ prefix) [] b ds hp h d = ground (arith, hp.0)
starts_with-port (p ∷ prefix) (c ∷ text) b ds hp h d =
    ground (arith, starts_with-port prefix text b ds hp.1 h.1 d)

rfind-host : (text : List ℕ) → IsHost text → rfind colon text ≡ none
rfind-host [] h = refl
rfind-host (c ∷ text) h = rw (rfind-host text h.1, h.0.0) refl

rfind-Digits : (text : List ℕ) → Digits text → rfind colon text ≡ none
rfind-Digits [] h = refl
rfind-Digits (c ∷ text) h = rw (rfind-Digits text h.1) (ground (arith, h.0))

rfind-append :
    (text ds : List ℕ) → Digits ds → rfind colon (text ++ (colon ∷ ds)) ≡ some (length text)
rfind-append [] ds h = rw (rfind-Digits ds h) refl
rfind-append (c ∷ text) ds h = rw (rfind-append text ds h) refl

find-append :
    (text ds : List ℕ) → IsHost text → find colon (text ++ (colon ∷ ds)) ≡ some (length text)
find-append [] ds h = refl
find-append (c ∷ text) ds h = rw (find-append text ds h.1, h.0.0) refl

find-Digits : (text : List ℕ) → Digits text → find b']' text ≡ none
find-Digits [] h = refl
find-Digits (c ∷ text) h = rw (find-Digits text h.1) (ground (arith, h.0))

find-closing :
    (text ds : List ℕ) → IsHost text → Digits ds → find b']' (text ++ (colon ∷ ds)) ≡ none
find-closing [] ds h d = rw (find-Digits ds d) refl
find-closing (c ∷ text) ds h d = rw (find-closing text ds h.1 d, h.0.1) refl

each_digit-Digits : (text : List ℕ) → Digits text → each_digit text ≡ true
each_digit-Digits [] h = refl
each_digit-Digits (c ∷ text) h = rw (h.0, each_digit-Digits text h.1) refl

-- The host alone, and the host with a port behind it.
strip-host : (host : List ℕ) → IsHost host → strip_at (rfind colon host) host ≡ host
strip-host host h = rw (rfind-host host h) refl

strip-port :
    (host : List ℕ) (b : ℕ) (ds : List ℕ)
    → IsHost host
    → Digits (b ∷ ds)
    → let address = host ++ (colon ∷ b ∷ ds) in strip_at (rfind colon address) address ≡ host
strip-port host b ds h d =
    let address = host ++ (colon ∷ b ∷ ds) in
    let behind : drop (length host + 1) address ≡ b ∷ ds = drop_one host (b ∷ ds) in
    let at : is_at (length host) (some (length host)) ≡ true = ground arith in
    rw
      (
        rfind-append host (b ∷ ds) d,
        find-closing host (b ∷ ds) h d,
        find-append host (b ∷ ds) h,
        at,
        behind,
        each_digit-Digits (b ∷ ds) d,
        take-append host (colon ∷ b ∷ ds),
      )
      refl
  where
    drop_one : (xs ys : List ℕ) → drop (length xs + 1) (xs ++ (colon ∷ ys)) ≡ ys
    drop_one [] ys = refl
    drop_one (x ∷ xs) ys =
        ap (λ n. drop n (x ∷ xs ++ (colon ∷ ys))) (more (length xs)) ∙ drop_one xs ys
      where
        more : (n : ℕ) → suc n + 1 ≡ suc (n + 1)
        more n = omega arith

scheme-Plain : All (λ c. (c == colon) ≡ false) (b't' ∷ b'c' ∷ b'p' ∷ [])
scheme-Plain = (refl, (refl, (refl, tt)))

-- A host without a colon or a closing bracket, the host with the scheme before it, the host with a
-- colon and digits behind it, and the host with both all give the same endpoint: the scheme, the
-- host, a colon and the port.
pub build_endpoint-forms :
    (host : List ℕ) (b : ℕ) (ds : List ℕ) (port : ℤ)
    → IsHost host
    → Digits (b ∷ ds)
    → let endpoint = scheme ++ (host ++ (colon ∷ to_string port)) in
      let with_port = host ++ (colon ∷ b ∷ ds) in
      (build_endpoint host port ≡ endpoint)
      × (build_endpoint (scheme ++ host) port ≡ endpoint)
      × (build_endpoint with_port port ≡ endpoint)
      × (build_endpoint (scheme ++ with_port) port ≡ endpoint)
unfolding build_endpoint
build_endpoint-forms host b ds port h d = (
  rw (starts_with-host (b't' ∷ b'c' ∷ b'p' ∷ []) host scheme-Plain h, strip-host host h) refl,
  rw (strip-host host h) refl,
  rw
      (
        starts_with-port (b't' ∷ b'c' ∷ b'p' ∷ []) host b ds scheme-Plain h d.0,
        strip-port host b ds h d,
      )
      refl,
  rw (strip-port host b ds h d) refl,
)

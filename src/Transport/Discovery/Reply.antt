-- ===== src/Transport/Discovery/Reply.antt =====
-- What src/transport/server_discovery.cpp makes of the reply that a server sends.
use styly_net_sync_godot.Base.{
  ℕ, ◌+◌, ◌-◌, ◌*◌, ◌≤◌, ◌≡◌, ◌≢◌, ◌↔◌, refl, sym, ap, ◌∙◌, subst, arith, true, false, ◌&&◌, Option,
  none, some, List, [], ◌∷◌, ◌++◌, ◌==◌, ltb, All, inl, inr, Bool-cases, ==_iff,
}
use mathlib.Core.Option.{some-injective}
use styly_net_sync_godot.Base.Keys.{bytes_eq, bytes_eq_iff}
use styly_net_sync_godot.Transport.Discovery.{
  DiscoveredServer, discovery_response_version, scheme, bar, split, is_digit, port_digits,
  parse_port, is_blank, nothing_left, rstrip, suffixes, with_ports, server_of,
  parse_discovery_response,
}

-- The number that decimal digits write.
abbrev pub number : ℕ → List ℕ → ℕ
number value [] = value
number value (c ∷ text) = number (value * 10 + (c - b'0')) text

-- A port as text: digits, at least one, whose number is at most 65535.
pub record IsPort (text : List ℕ) (port : ℕ) : Type 0 where
  pub digits : All (λ c. is_digit c ≡ true) text
  pub some_digit : text ≢ []
  pub value : number 0 text ≡ port
  pub fits : port ≤ 65535

number-le : (value : ℕ) (text : List ℕ) → value ≤ number value text
number-le value [] = omega arith
number-le value (c ∷ text) = omega (arith, number-le (value * 10 + (c - b'0')) text)

port_digits-number :
    (value : ℕ) (text : List ℕ)
    → All (λ c. is_digit c ≡ true) text
    → number value text ≤ 65535
    → port_digits value text ≡ some (number value text)
unfolding port_digits
port_digits-number value [] h fits = refl
port_digits-number value (c ∷ text) h fits =
    let next = value * 10 + (c - b'0') in
    rw h.0 (ground (arith, port_digits-number next text h.1 fits, number-le next text, fits))

pub parse_port-number : (text : List ℕ) (port : ℕ) → IsPort text port → parse_port text ≡ some port
unfolding parse_port
parse_port-number [] port h = absurd (h.some_digit refl)
parse_port-number (c ∷ text) port h =
    port_digits-number 0 (c ∷ text) h.digits (subst (λ n. n ≤ 65535) (sym h.value) h.fits)
    ∙ ap some h.value

refused : (n : ℕ) → none ≡ some n → ⊥
refused n e = cc

number-port_digits :
    (value : ℕ) (text : List ℕ) (port : ℕ)
    → value ≤ 65535
    → port_digits value text ≡ some port
    → All (λ c. is_digit c ≡ true) text × (number value text ≡ port) × (port ≤ 65535)
unfolding port_digits
number-port_digits value [] port fits e =
    (tt, some-injective value port e, subst (λ n. n ≤ 65535) (some-injective value port e) fits)
number-port_digits value (c ∷ text) port fits e =
    let next = value * 10 + (c - b'0') in
    elim (Bool-cases (is_digit c)) [
      | inr other ↦ absurd (refused port (rw other at e))
      | inl digit ↦ elim (Bool-cases (ltb 65535 next)) [
        | inl large ↦ absurd (refused port (rw (digit, large) at e))
        | inr small ↦
            let (digits, value_is, port_fits) =
              number-port_digits next text port (ground (arith, small)) (rw (digit, small) at e) in
            ((digit, digits), value_is, port_fits)
      ]
    ]

-- A part without a bar.
abbrev pub Plain : List ℕ → Type 0
Plain = All (λ c. (c == bar) ≡ false)

Plain-digits : (text : List ℕ) → All (λ c. is_digit c ≡ true) text → Plain text
Plain-digits [] h = tt
Plain-digits (c ∷ text) h = (ground (arith, h.0), Plain-digits text h.1)

split-append : (part rest : List ℕ) → Plain part → split (part ++ bar ∷ rest) ≡ part ∷ split rest
unfolding split
split-append [] rest h = refl
split-append (c ∷ part) rest h = rw (h.0, split-append part rest h.1) refl

-- The text of some parts.
abbrev joined : List (List ℕ) → List ℕ
joined [] = []
joined (part ∷ parts) = part ++ suffixes parts

split-cases :
    (text : List ℕ)
    → (part : List ℕ) × (parts : List (List ℕ)) × (split text ≡ part ∷ parts)
      × (part ++ suffixes parts ≡ text)
unfolding split
split-cases [] = ([], [], refl, refl)
split-cases (c ∷ text) =
    let (part, parts, e, whole) = split-cases text in
    elim (Bool-cases (c == bar)) [
      | inl is ↦ ([], part ∷ parts, rw (is, e) refl, (λ i. sym ((==_iff c bar).0 is) i ∷ whole i))
      | inr other ↦ (c ∷ part, parts, rw (other, e) refl, ap (◌∷◌ c) whole)
    ]

rstrip-blanks : (blanks : List ℕ) → All (λ c. is_blank c ≡ true) blanks → rstrip blanks ≡ []
unfolding rstrip
rstrip-blanks [] h = refl
rstrip-blanks (c ∷ blanks) h = rw (rstrip-blanks blanks h.1, h.0) refl

rstrip-append :
    (text blanks : List ℕ)
    → All (λ c. is_blank c ≡ true) blanks
    → rstrip (text ++ blanks) ≡ rstrip text
unfolding rstrip
rstrip-append [] blanks h = rstrip-blanks blanks h
rstrip-append (c ∷ text) blanks h = rw (rstrip-append text blanks h) refl

more_left : (text name : List ℕ) → nothing_left (text ++ bar ∷ name) ≡ false
more_left [] name = refl
more_left (c ∷ text) name = refl

rstrip-kept :
    (text name : List ℕ) → rstrip name ≡ name → rstrip (text ++ bar ∷ name) ≡ text ++ bar ∷ name
unfolding rstrip
rstrip-kept [] name h = rw h refl
rstrip-kept (c ∷ text) name h = rw (rstrip-kept text name h) (ground (arith, more_left text name))

-- The reply with its parts as the server writes them.
abbrev pub reply : (control transform sub rest_api name : List ℕ) → List ℕ
reply control transform sub rest_api name =
    discovery_response_version
    ++ (bar
        ∷ (control ++ (bar ∷ (transform ++ (bar ∷ (sub ++ (bar ∷ (rest_api ++ (bar ∷ name)))))))))

-- The last character is not blank.
abbrev pub Trimmed : List ℕ → Type 0
Trimmed [] = Unit
Trimmed (c ∷ []) = is_blank c ≡ false
Trimmed (c ∷ b ∷ text) = Trimmed (b ∷ text)

rstrip-Trimmed_lem : (text : List ℕ) → Trimmed text → rstrip text ≡ text
unfolding rstrip
rstrip-Trimmed_lem [] h = refl
rstrip-Trimmed_lem (c ∷ []) h = rw h refl
rstrip-Trimmed_lem (c ∷ b ∷ text) h = rw (rstrip-Trimmed_lem (b ∷ text) h) (ground arith)

Trimmed-cons :
    (c : ℕ) (text : List ℕ)
    → Trimmed text
    → (is_blank c && nothing_left text) ≡ false
    → Trimmed (c ∷ text)
Trimmed-cons c [] h e = ground (arith, e)
Trimmed-cons c (b ∷ text) h e = h

rstrip-Trimmed : (text : List ℕ) → Trimmed (rstrip text)
unfolding rstrip
rstrip-Trimmed [] = tt
rstrip-Trimmed (c ∷ text) = elim (Bool-cases (is_blank c && nothing_left (rstrip text))) [
  | inl gone ↦ rw gone tt
  | inr kept ↦ rw kept (Trimmed-cons c (rstrip text) (rstrip-Trimmed text) kept)
]

Trimmed-tail : (text name : List ℕ) → Trimmed (text ++ bar ∷ name) → Trimmed name
Trimmed-tail [] [] h = tt
Trimmed-tail [] (c ∷ name) h = h
Trimmed-tail (c ∷ []) name h = Trimmed-tail [] name h
Trimmed-tail (c ∷ b ∷ text) name h = Trimmed-tail (b ∷ text) name h

gone_all :
    (c : ℕ) (rest : List ℕ)
    → (is_blank c && nothing_left rest) ≡ true
    → (is_blank c ≡ true) × (rest ≡ [])
gone_all c [] h = (ground (arith, h), refl)
gone_all c (b ∷ rest) h = absurd (ground (arith, h))

-- What is stripped off is blank.
rstrip-blank :
    (text : List ℕ)
    → (blanks : List ℕ) × All (λ c. is_blank c ≡ true) blanks × (text ≡ rstrip text ++ blanks)
unfolding rstrip
rstrip-blank [] = ([], tt, refl)
rstrip-blank (c ∷ text) =
    let (blanks, blank, whole) = rstrip-blank text in
    elim (Bool-cases (is_blank c && nothing_left (rstrip text))) [
      | inl gone ↦
          let (first, empty) = gone_all c (rstrip text) gone in
          (c ∷ blanks, (first, blank), rw gone (ap (◌∷◌ c) (whole ∙ ap (λ t. t ++ blanks) empty)))
      | inr kept ↦ (blanks, blank, rw kept (ap (◌∷◌ c) whole))
    ]

-- A message that announces `server`: the version, four ports and the name with bars between them,
-- and then blanks, with the address that it came from. The name may have bars, and does not end in a
-- blank.
pub record Announces (message sender_ip : List ℕ) (server : DiscoveredServer) : Type 0 where
  pub control : List ℕ
  pub transform : List ℕ
  pub sub : List ℕ
  pub rest_api : List ℕ
  pub blanks : List ℕ
  pub control_port : IsPort control server.control_port
  pub transform_port : IsPort transform server.transform_port
  pub sub_port : IsPort sub server.sub_port
  pub rest_api_port : IsPort rest_api server.rest_api_port
  pub name : Trimmed server.server_name
  pub blank : All (λ c. is_blank c ≡ true) blanks
  pub bytes : message ≡ reply control transform sub rest_api server.server_name ++ blanks
  pub ip : server.ip ≡ sender_ip
  pub address : server.address ≡ scheme ++ sender_ip

version-Plain : Plain discovery_response_version
version-Plain = (
  refl,
  (
    refl,
    (
      refl,
      (refl, (refl, (refl, (refl, (refl, (refl, (refl, (refl, (refl, (refl, (refl, tt))))))))))),
    ),
  ),
)

split-reply :
    (control transform sub rest_api name : List ℕ)
    → Plain control
    → Plain transform
    → Plain sub
    → Plain rest_api
    → split (reply control transform sub rest_api name)
      ≡ discovery_response_version ∷ control ∷ transform ∷ sub ∷ rest_api ∷ split name
split-reply control transform sub rest_api name h1 h2 h3 h4 =
    split-append discovery_response_version _ version-Plain
    ∙ ap (◌∷◌ discovery_response_version) (
        split-append control _ h1
        ∙ ap (◌∷◌ control) (
            split-append transform _ h2
            ∙ ap (◌∷◌ transform)
                (split-append sub _ h3 ∙ ap (◌∷◌ sub) (split-append rest_api name h4))))

rstrip-reply :
    (control transform sub rest_api name : List ℕ)
    → Trimmed name
    → rstrip (reply control transform sub rest_api name) ≡ reply control transform sub rest_api name
rstrip-reply control transform sub rest_api name h = rstrip-kept discovery_response_version _ (
    rstrip-kept control _ (
      rstrip-kept transform _
        (rstrip-kept sub _ (rstrip-kept rest_api name (rstrip-Trimmed_lem name h)))))

server_of-parts :
    (control transform sub rest_api name sender_ip : List ℕ) (a b c d : ℕ)
    → IsPort control a
    → IsPort transform b
    → IsPort sub c
    → IsPort rest_api d
    → server_of
        (discovery_response_version ∷ control ∷ transform ∷ sub ∷ rest_api ∷ split name)
        sender_ip
      ≡ some (record {
        address = scheme ++ sender_ip;
        ip = sender_ip;
        control_port = a;
        transform_port = b;
        sub_port = c;
        rest_api_port = d;
        server_name = name;
      })
unfolding server_of
server_of-parts control transform sub rest_api name sender_ip a b c d h1 h2 h3 h4 =
    let (part, parts, e, whole) = split-cases name in
    rw
      (
        e,
        parse_port-number control a h1,
        parse_port-number transform b h2,
        parse_port-number sub c h3,
        parse_port-number rest_api d h4,
        whole,
      )
      refl

Announces-accepted :
    (message sender_ip : List ℕ) (server : DiscoveredServer)
    → Announces message sender_ip server
    → parse_discovery_response message sender_ip ≡ some server
unfolding parse_discovery_response
Announces-accepted message sender_ip server h =
    let text = reply h.control h.transform h.sub h.rest_api server.server_name in
    let stripped : rstrip message ≡ text =
      ap rstrip h.bytes
      ∙ rstrip-append text h.blanks h.blank
      ∙ rstrip-reply h.control h.transform h.sub h.rest_api server.server_name h.name in
    ap (λ t. server_of (split t) sender_ip) stripped
    ∙ ap (λ parts. server_of parts sender_ip)
        (split-reply h.control h.transform h.sub h.rest_api server.server_name
          (Plain-digits _ h.control_port.digits) (Plain-digits _ h.transform_port.digits)
          (Plain-digits _ h.sub_port.digits) (Plain-digits _ h.rest_api_port.digits))
    ∙ server_of-parts h.control h.transform h.sub h.rest_api server.server_name sender_ip
        server.control_port server.transform_port server.sub_port server.rest_api_port
        h.control_port h.transform_port h.sub_port h.rest_api_port
    ∙ sym (λ i. some (record server { ip = h.ip i; address = h.address i }))

nothing : {server : DiscoveredServer} → none ≡ some server → ⊥
nothing e = cc

Trimmed-reply :
    (control transform sub rest_api name : List ℕ)
    → Trimmed (reply control transform sub rest_api name)
    → Trimmed name
Trimmed-reply control transform sub rest_api name h =
    let last = rest_api ++ (bar ∷ name) in
    let last_two = sub ++ (bar ∷ last) in
    let last_three = transform ++ (bar ∷ last_two) in
    Trimmed-tail rest_api name (
      Trimmed-tail sub last (
        Trimmed-tail transform last_two (
          Trimmed-tail control last_three
            (Trimmed-tail discovery_response_version (control ++ (bar ∷ last_three)) h))))

number-parse_port : (text : List ℕ) (port : ℕ) → parse_port text ≡ some port → IsPort text port
unfolding parse_port
number-parse_port [] port e = absurd (refused port e)
number-parse_port (c ∷ text) port e =
    let (digits, value, fits) = number-port_digits 0 (c ∷ text) port (omega arith) e in
    record { digits = digits; some_digit = λ p. not_empty c text p; value = value; fits = fits }
  where
    not_empty : (c : ℕ) (text : List ℕ) → c ∷ text ≡ [] → ⊥
    not_empty c text p = cc

with_ports-some :
    (a b c d : Option ℕ) (name sender_ip : List ℕ) (server : DiscoveredServer)
    → with_ports a b c d name sender_ip ≡ some server
    → (a ≡ some server.control_port)
      × (b ≡ some server.transform_port)
      × (c ≡ some server.sub_port)
      × (d ≡ some server.rest_api_port)
      × (server.server_name ≡ name)
      × (server.ip ≡ sender_ip)
      × (server.address ≡ scheme ++ sender_ip)
with_ports-some none b c d name sender_ip server e = absurd (nothing e)
with_ports-some (some a) none c d name sender_ip server e = absurd (nothing e)
with_ports-some (some a) (some b) none d name sender_ip server e = absurd (nothing e)
with_ports-some (some a) (some b) (some c) none name sender_ip server e = absurd (nothing e)
with_ports-some (some a) (some b) (some c) (some d) name sender_ip server e =
    let is = some-injective _ server e in
    (
      ap (λ (s : DiscoveredServer). some s.control_port) is,
      ap (λ (s : DiscoveredServer). some s.transform_port) is,
      ap (λ (s : DiscoveredServer). some s.sub_port) is,
      ap (λ (s : DiscoveredServer). some s.rest_api_port) is,
      sym (ap (λ (s : DiscoveredServer). s.server_name) is),
      sym (ap (λ (s : DiscoveredServer). s.ip) is),
      sym (ap (λ (s : DiscoveredServer). s.address) is),
    )

accepted-Announces :
    (message sender_ip : List ℕ) (server : DiscoveredServer) (parts : List (List ℕ))
    → joined parts ≡ rstrip message
    → server_of parts sender_ip ≡ some server
    → Announces message sender_ip server
unfolding server_of
accepted-Announces message sender_ip server [] whole e = absurd (nothing e)
accepted-Announces message sender_ip server (v ∷ []) whole e = absurd (nothing e)
accepted-Announces message sender_ip server (v ∷ c ∷ []) whole e = absurd (nothing e)
accepted-Announces message sender_ip server (v ∷ c ∷ t ∷ []) whole e = absurd (nothing e)
accepted-Announces message sender_ip server (v ∷ c ∷ t ∷ s ∷ []) whole e = absurd (nothing e)
accepted-Announces message sender_ip server (v ∷ c ∷ t ∷ s ∷ r ∷ []) whole e = absurd (nothing e)
accepted-Announces message sender_ip server (v ∷ c ∷ t ∷ s ∷ r ∷ name ∷ more) whole e =
    elim (Bool-cases (bytes_eq v discovery_response_version)) [
      | inr other ↦ absurd (nothing (rw other at e))
      | inl current ↦
          let (e1, e2, e3, e4, named, ip, address) =
            with_ports-some _ _ _ _ _ sender_ip server (rw current at e) in
          let (blanks, blank, stripped) = rstrip-blank message in
          let text : reply c t s r server.server_name ≡ rstrip message =
            (λ i.
              (sym ((bytes_eq_iff v discovery_response_version).0 current) i)
              ++ (bar ∷ (c ++ (bar ∷ (t ++ (bar ∷ (s ++ (bar ∷ (r ++ (bar ∷ named i))))))))))
            ∙ whole in
          record {
            control = c;
            transform = t;
            sub = s;
            rest_api = r;
            blanks = blanks;
            control_port = number-parse_port c server.control_port e1;
            transform_port = number-parse_port t server.transform_port e2;
            sub_port = number-parse_port s server.sub_port e3;
            rest_api_port = number-parse_port r server.rest_api_port e4;
            name =
                Trimmed-reply c t s r server.server_name
                  (subst Trimmed (sym text) (rstrip-Trimmed message));
            blank = blank;
            bytes = stripped ∙ ap (λ x. x ++ blanks) (sym text);
            ip = ip;
            address = address;
          }
    ]

-- A message is taken for a server exactly if it announces that server: it has the version, four
-- ports in digits, each at most 65535, and the name, with bars between them, and then nothing but
-- blanks, where the name may have bars and does not end in a blank; the address is the sender's,
-- with the scheme before it.
pub parse_discovery_response-Announces :
    (message sender_ip : List ℕ) (server : DiscoveredServer)
    → (parse_discovery_response message sender_ip ≡ some server)
      ↔ Announces message sender_ip server
unfolding parse_discovery_response
parse_discovery_response-Announces message sender_ip server =
    let (part, parts, e, whole) = split-cases (rstrip message) in
    (
      (λ taken.
          accepted-Announces message sender_ip server (split (rstrip message)) (ap joined e ∙ whole)
            taken),
      Announces-accepted message sender_ip server,
    )

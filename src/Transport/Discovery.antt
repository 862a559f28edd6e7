-- ===== src/Transport/Discovery.antt =====
-- How src/transport/server_discovery.cpp reads the reply of a server. The sockets and the threads of
-- ServerDiscovery are not here. The proofs are in a child module, which uses this one.
pub mod Reply
use styly_net_sync_godot.Base.{
  ℕ, ◌+◌, ◌-◌, ◌*◌, ◌≤◌, ◌<◌, ◌≡◌, ◌↔◌, refl, sym, ap, ◌∙◌, arith, Bool, true, false, not, ◌&&◌,
  ◌||◌, Option, none, some, List, [], ◌∷◌, ◌++◌, ◌==◌, ltb, if◌then◌else◌, All, inl, inr,
  Bool-cases, append_assoc,
}
use styly_net_sync_godot.Base.Keys.{bytes_eq}

pub record DiscoveredServer : Type 0 where
  pub address : List ℕ
  pub ip : List ℕ
  pub control_port : ℕ
  pub transform_port : ℕ
  pub sub_port : ℕ
  pub rest_api_port : ℕ
  pub server_name : List ℕ

abbrev pub discovery_response_version : List ℕ
discovery_response_version =
    b'S' ∷ b'T' ∷ b'Y' ∷ b'L' ∷ b'Y' ∷ b'-' ∷ b'N' ∷ b'E' ∷ b'T' ∷ b'S' ∷ b'Y' ∷ b'N' ∷ b'C' ∷ b'3'
    ∷ []

abbrev pub scheme : List ℕ
scheme = b't' ∷ b'c' ∷ b'p' ∷ b':' ∷ b'/' ∷ b'/' ∷ []

-- The delimiter of the parts.
abbrev pub bar : ℕ
bar = b'|'

-- A character that goes on the first part.
abbrev pub prepend : ℕ → List (List ℕ) → List (List ℕ)
prepend c [] = (c ∷ []) ∷ []
prepend c (part ∷ parts) = (c ∷ part) ∷ parts

unfoldable pub split : List ℕ → List (List ℕ)
split [] = [] ∷ []
split (c ∷ text) = let parts = split text in if c == bar then [] ∷ parts else prepend c parts

abbrev pub is_digit : ℕ → Bool
is_digit c = not (ltb c b'0' || ltb b'9' c)

unfoldable pub port_digits : ℕ → List ℕ → Option ℕ
port_digits value [] = some value
port_digits value (c ∷ text) =
    let next = value * 10 + (c - b'0') in
    let rest = port_digits next text in
    if not (is_digit c) then none else if ltb 65535 next then none else rest

unfoldable pub parse_port : List ℕ → Option ℕ
unfolding port_digits
parse_port [] = none
parse_port (c ∷ text) = port_digits 0 (c ∷ text)

-- Newline, carriage return, space, tab and the zero byte.
abbrev pub is_blank : ℕ → Bool
is_blank c = c == 10 || (c == 13 || (c == 32 || (c == 9 || c == 0)))

abbrev nothing_left : List ℕ → Bool
nothing_left [] = true
nothing_left (c ∷ text) = false

unfoldable pub rstrip : List ℕ → List ℕ
rstrip [] = []
rstrip (c ∷ text) =
    let rest = rstrip text in if is_blank c && nothing_left rest then [] else c ∷ rest

-- The parts after the sixth, each behind its bar.
abbrev pub suffixes : List (List ℕ) → List ℕ
suffixes [] = []
suffixes (part ∷ parts) = bar ∷ part ++ suffixes parts

abbrev pub with_ports :
    Option ℕ → Option ℕ → Option ℕ → Option ℕ → List ℕ → List ℕ → Option DiscoveredServer
with_ports (some control) (some transform) (some sub) (some rest_api) name sender_ip =
    some (record {
      address = scheme ++ sender_ip;
      ip = sender_ip;
      control_port = control;
      transform_port = transform;
      sub_port = sub;
      rest_api_port = rest_api;
      server_name = name;
    })
with_ports _ _ _ _ name sender_ip = none

unfoldable pub server_of : List (List ℕ) → List ℕ → Option DiscoveredServer
unfolding parse_port
server_of (version ∷ control ∷ transform ∷ sub ∷ rest_api ∷ name ∷ more) sender_ip =
    if not (bytes_eq version discovery_response_version)
    then none
    else with_ports (parse_port control) (parse_port transform) (parse_port sub)
        (parse_port rest_api) (name ++ suffixes more) sender_ip
server_of _ sender_ip = none

unfoldable pub parse_discovery_response : List ℕ → List ℕ → Option DiscoveredServer
unfolding split rstrip server_of
parse_discovery_response message sender_ip = server_of (split (rstrip message)) sender_ip

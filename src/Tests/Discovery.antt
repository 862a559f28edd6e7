-- ===== src/Tests/Discovery.antt =====
-- A reply that src/transport/server_discovery.cpp reads.
use styly_net_sync_godot.Base.{ℕ, ◌≡◌, ◌≢◌, ◌↔◌, refl, arith, some, List, [], ◌∷◌, ◌++◌}
use styly_net_sync_godot.Transport.Discovery.{
  DiscoveredServer, scheme, bar, parse_discovery_response,
}
use styly_net_sync_godot.Transport.Discovery.Reply.{
  Announces, reply, parse_discovery_response-Announces,
}

-- The name has a bar in it.
abbrev hall : DiscoveredServer
hall = record {
  address = scheme ++ (b'h' ∷ []);
  ip = b'h' ∷ [];
  control_port = 5555;
  transform_port = 5557;
  sub_port = 65535;
  rest_api_port = 0;
  server_name = b'a' ∷ bar ∷ b'b' ∷ [];
}

abbrev message : List ℕ
message =
    reply (b'5' ∷ b'5' ∷ b'5' ∷ b'5' ∷ []) (b'5' ∷ b'5' ∷ b'5' ∷ b'7' ∷ [])
      (b'6' ∷ b'5' ∷ b'5' ∷ b'3' ∷ b'5' ∷ []) (b'0' ∷ []) hall.server_name
    ++ (13 ∷ 10 ∷ [])

parse_discovery_response-Announces_example :
    (parse_discovery_response message (b'h' ∷ []) ≡ some hall) ↔ Announces message (b'h' ∷ []) hall
parse_discovery_response-Announces_example =
    parse_discovery_response-Announces message (b'h' ∷ []) hall

not_empty : (c : ℕ) (text : List ℕ) → c ∷ text ≢ []
not_empty c text e = cc

-- Both sides hold.
hall_found : parse_discovery_response message (b'h' ∷ []) ≡ some hall
hall_found = (parse_discovery_response-Announces message (b'h' ∷ []) hall).1 (record {
  control = b'5' ∷ b'5' ∷ b'5' ∷ b'5' ∷ [];
  transform = b'5' ∷ b'5' ∷ b'5' ∷ b'7' ∷ [];
  sub = b'6' ∷ b'5' ∷ b'5' ∷ b'3' ∷ b'5' ∷ [];
  rest_api = b'0' ∷ [];
  blanks = 13 ∷ 10 ∷ [];
  control_port = record {
    digits = (refl, (refl, (refl, (refl, tt))));
    some_digit = not_empty _ _;
    value = refl;
    fits = omega arith;
  };
  transform_port = record {
    digits = (refl, (refl, (refl, (refl, tt))));
    some_digit = not_empty _ _;
    value = refl;
    fits = omega arith;
  };
  sub_port = record {
    digits = (refl, (refl, (refl, (refl, (refl, tt)))));
    some_digit = not_empty _ _;
    value = refl;
    fits = omega arith;
  };
  rest_api_port = record {
    digits = (refl, tt);
    some_digit = not_empty _ _;
    value = refl;
    fits = omega arith;
  };
  name = refl;
  blank = (refl, (refl, tt));
  bytes = refl;
  ip = refl;
  address = refl;
})

-- ===== src/Tests/Endpoint.antt =====
-- The endpoint of an address in src/transport/zmq_transport.cpp.
use styly_net_sync_godot.Base.{ℕ, List, ◌≡◌, refl, [], ◌∷◌, ◌++◌}
use styly_net_sync_godot.Base.Int.{pos}
use styly_net_sync_godot.Transport.Discovery.{scheme}
use styly_net_sync_godot.Transport.Endpoint.{colon, to_string, build_endpoint, build_endpoint-forms}

abbrev host : List ℕ
host = b'a' ∷ b'b' ∷ []

abbrev with_port : List ℕ
with_port = host ++ (colon ∷ b'8' ∷ b'0' ∷ [])

four_digits : to_string (pos 5055) ≡ b'5' ∷ b'0' ∷ b'5' ∷ b'5' ∷ []
four_digits = refl

-- The host "ab", alone and as "ab:80".
build_endpoint-forms_example :
    let endpoint = scheme ++ (host ++ (colon ∷ to_string (pos 5055))) in
    (build_endpoint host (pos 5055) ≡ endpoint)
    × (build_endpoint (scheme ++ host) (pos 5055) ≡ endpoint)
    × (build_endpoint with_port (pos 5055) ≡ endpoint)
    × (build_endpoint (scheme ++ with_port) (pos 5055) ≡ endpoint)
build_endpoint-forms_example =
    build_endpoint-forms host b'8' (b'0' ∷ []) (pos 5055) ((refl, refl), ((refl, refl), tt))
      (refl, (refl, tt))

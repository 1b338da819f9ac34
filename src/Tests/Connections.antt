-- ===== src/Tests/Connections.antt =====
-- Concrete inputs of core/go/internal/proxy/socks5.go, core/go/internal/handshake and
-- core/go/internal/transport.
use air_bridge5g.Prelude.{
  ℕ, ◌≡◌, refl, Bool, true, Option, some, [], ◌∷◌, ◌++◌, arith, Bytes, codes,
}
use air_bridge5g.Tests.Samples.{sink}
use air_bridge5g.Prelude.Stream.{read_full}
use air_bridge5g.Prelude.Map.{str_eq, lookup}
use air_bridge5g.Prelude.Format.{sprintf_port, decimal}
use air_bridge5g.Proxy.Socks5
use air_bridge5g.Proxy.Socks5.{
  Conn, Ip, ip4, Reply, auth_failed, any_is, auth_password, socks5_version, negotiate,
  handle_connection, read_request, validate_token, read, select_method, select_password, send,
  authenticate_password, read_field, answer, read_host, read_dest,
}
use air_bridge5g.Proxy.Socks5.Requests.{
  Target, domain, encode, greeting, credentials, read_request-encode,
}
use air_bridge5g.Proxy.Socks5.Authentication.{Presents, handle_connection-Authenticated}

abbrev login : Bytes → Bytes → Bool
login = validate_token ((codes "u", codes "pw") ∷ [])

abbrev conn_with : Bytes → Conn Bytes
conn_with input = record { input = input; out = []; auth_failures = 0; connection_errors = 0 }

abbrev target : Target
target = domain (codes "a.b")

-- The greeting, the credentials and the request of a client.
abbrev hello : Bytes
hello = greeting (0 ∷ 2 ∷ []) ++ (credentials (codes "u") (codes "pw") ++ (encode target 443 ++ []))

abbrev accepted : Conn Bytes
accepted = record (conn_with (encode target 443)) { out = 5 ∷ 2 ∷ 1 ∷ 0 ∷ [] }

negotiated :
    ◌≡◌ {A = Reply (Unit {0}) (Unit {0}) × Conn Bytes}
      (negotiate sink (some login) (conn_with hello))
      (Socks5.ok tt, accepted)
unfolding negotiate read read_full select_method any_is select_password send authenticate_password
    read_field answer validate_token lookup str_eq
negotiated = refl

read_request-encode_example :
    ◌≡◌ {A = Reply (Unit {0}) Bytes × Conn Bytes}
      (read_request sink (λ b. b) (conn_with (encode target 443 ++ (1 ∷ []))))
      (
        Socks5.ok (sprintf_port (codes "a.b") 443),
        record (conn_with (encode target 443 ++ (1 ∷ []))) { input = 1 ∷ [] },
      )
read_request-encode_example =
    read_request-encode sink (λ b. b) target 443 (conn_with (encode target 443 ++ (1 ∷ [])))
      (1 ∷ []) (omega arith) (omega arith) refl

abbrev dial : Bytes → Option (Ip × ℕ)
dial dest = some (ip4 (10 ∷ 0 ∷ 0 ∷ 1 ∷ []), 5000)

abbrev relaying : Conn Bytes
relaying = (handle_connection sink (λ b. b) dial (some login) (conn_with hello)).1

relayed :
    handle_connection sink (λ b. b) dial (some login) (conn_with hello)
    ≡ (some (codes "a.b:443"), relaying)
unfolding handle_connection negotiate read read_full select_method any_is select_password send
    authenticate_password read_field answer validate_token lookup str_eq read_request read_dest
    read_host decimal
relayed = refl

handle_connection-Authenticated_example :
    (front input rest : Bytes) × (uname passwd : Bytes) × (hello ≡ front ++ input)
    × (login uname passwd ≡ true)
    × Presents input uname passwd rest
handle_connection-Authenticated_example =
    handle_connection-Authenticated sink (λ b. b) dial login (conn_with hello) relaying
      (codes "a.b:443") relayed

-- ===== src/Proxy/Socks5/Requests.antt =====
-- How core/go/internal/proxy/socks5.go answers a client that keeps to the protocol.
use air_bridge5g.Prelude.{
  ℕ, ◌/◌, ◌%◌, ◌^◌, ◌<◌, ◌≡◌, refl, Bool, Option, none, some, [], ◌∷◌, ◌++◌, append_assoc, arith,
  Bytes, if◌then◌else◌, length,
}
use air_bridge5g.Prelude.Stream.{read_full-append}
use air_bridge5g.Prelude.Int.{add64}
use air_bridge5g.Prelude.Format.{sprintf_port}
use air_bridge5g.Proxy.Socks5.{
  Conn, Reply, ok, err, read, any_is, auth_password, send, send_ignored, auth_failed, read_field,
  answer, read_host, read_dest, read_request, authenticate_password, select_password, select_method,
  negotiate,
}

-- What a client asks for: an address of 4 bytes, a name of at most 255, or an address of 16 bytes.
pub data Target : Type 0 where
  ipv4 domain ipv6 : Bytes → Target

abbrev pub IsTarget : Target → Type 0
IsTarget (ipv4 b) = length b ≡ 4
IsTarget (domain b) = length b < 256
IsTarget (ipv6 b) = length b ≡ 16

-- The address type and the address, and then the port.
abbrev pub atyp : Target → ℕ
atyp (ipv4 b) = 1
atyp (domain b) = 3
atyp (ipv6 b) = 4

abbrev pub address : Target → Bytes
address (ipv4 b) = b
address (domain b) = length b ∷ b
address (ipv6 b) = b

abbrev pub host : (Bytes → Bytes) → Target → Bytes
host ip_string (ipv4 b) = ip_string b
host ip_string (domain b) = b
host ip_string (ipv6 b) = ip_string b

abbrev pub encode : Target → ℕ → Bytes
encode t port = 5 ∷ 1 ∷ 0 ∷ atyp t ∷ address t ++ (port / 256 ∷ port % 256 ∷ [])

module _ (W E : Type 0) where
  read_lem :
      (n : ℕ) (c : Conn W) (buf rest : Bytes)
      → length buf ≡ n
      → c.input ≡ buf ++ rest
      → ◌≡◌ {A = Reply E Bytes × Conn W} (read n c) (ok buf, record c { input = rest })
  unfolding read
  read_lem n c buf rest l h = ground (arith, l, h, read_full-append buf rest)

  read_field_lem :
      (c : Conn W) (buf rest : Bytes)
      → c.input ≡ length buf ∷ buf ++ rest
      → ◌≡◌ {A = Reply E Bytes × Conn W} (read_field c) (ok buf, record c { input = rest })
  unfolding read_field
  read_field_lem c buf rest h = ground (
    arith,
    read_lem 1 c (length buf ∷ []) (buf ++ rest) refl h,
    read_lem (length buf) (record c { input = buf ++ rest }) buf rest refl refl,
  )

module _ {W E : Type 0} (write : W → Bytes → W × ℕ × Option E) (ip_string : Bytes → Bytes) where
  read_host_lem :
      (t : Target) (c : Conn W) (rest : Bytes)
      → IsTarget t
      → c.input ≡ address t ++ rest
      → read_host write ip_string (atyp t) c ≡ (ok (host ip_string t), record c { input = rest })
  unfolding read_host
  read_host_lem (ipv4 b) c rest v h = ground (arith, read_lem W E 4 c b rest v h)
  read_host_lem (domain b) c rest v h = ground (arith, read_field_lem W E c b rest h)
  read_host_lem (ipv6 b) c rest v h = ground (arith, read_lem W E 16 c b rest v h)

  -- Every request to connect that a client encodes by the protocol, to an IPv4 address, an IPv6
  -- address or a name of at most 255 bytes, at any port, gives its host, a colon and its port in
  -- decimal; nothing is written, and what comes after the request is left to read.
  pub read_request-encode :
      (t : Target) (port : ℕ) (c : Conn W) (rest : Bytes)
      → IsTarget t
      → port < 2 ^ 16
      → c.input ≡ encode t port ++ rest
      → read_request write ip_string c
        ≡ (ok (sprintf_port (host ip_string t) port), record c { input = rest })
  unfolding read_request read_dest
  read_request-encode t port c rest v p h =
      let port_bytes : Bytes = port / 256 ∷ port % 256 ∷ [] in
      let c1 : Conn W = record c { input = address t ++ (port_bytes ++ rest) } in
      ground (
        arith,
        append_assoc (address t) port_bytes rest,
        read_lem W E 4 c (5 ∷ 1 ∷ 0 ∷ atyp t ∷ []) (address t ++ (port_bytes ++ rest)) refl,
        read_host_lem t c1 (port_bytes ++ rest) v refl,
        read_lem W E 2 (record c { input = port_bytes ++ rest }) port_bytes rest refl refl,
      )

abbrev pub greeting : Bytes → Bytes
greeting methods = 5 ∷ length methods ∷ methods

abbrev pub credentials : Bytes → Bytes → Bytes
credentials uname passwd = 1 ∷ length uname ∷ uname ++ (length passwd ∷ passwd)

module _ {W E : Type 0} (write : W → Bytes → W × ℕ × Option E)
    (no_error : (w : W) (p : Bytes) → (write w p).2 ≡ none) where
  -- What `authenticatePassword` does with credentials that are sent by the protocol.
  authenticate_password_lem :
      (validate : Bytes → Bytes → Bool) (c : Conn W) (uname passwd rest : Bytes)
      → c.input ≡ credentials uname passwd ++ rest
      → authenticate_password write validate c ≡ (
          if validate uname passwd
          then (ok tt, record c { input = rest; out = (write c.out (1 ∷ 0 ∷ [])).0 })
          else (
            err auth_failed,
            record c {
              input = rest;
              out = (write c.out (1 ∷ 1 ∷ [])).0;
              auth_failures = add64 c.auth_failures 1;
            },
          ))
  unfolding authenticate_password answer send
  authenticate_password_lem validate c uname passwd rest h =
      let tail : Bytes = length passwd ∷ passwd ++ rest in
      let c1 : Conn W = record c { input = length uname ∷ uname ++ tail } in
      ground (
        arith,
        append_assoc uname (length passwd ∷ passwd) rest,
        read_lem W E 1 c (1 ∷ []) (length uname ∷ uname ++ tail) refl,
        read_field_lem W E c1 uname tail refl,
        read_field_lem W E (record c { input = tail }) passwd rest refl,
        no_error c.out (1 ∷ 0 ∷ []),
        no_error c.out (1 ∷ 1 ∷ []),
      )

  -- Let no write fail. For a client that greets with any methods and sends credentials by the
  -- protocol, a server with an authenticator answers as RFC 1929 says: without the password method
  -- among the methods it writes 5 255, fails and reads no credentials; else it writes 5 2, reads
  -- exactly the credentials, and either accepts them with 1 0, or counts a failure, writes 1 1
  -- and fails.
  pub negotiate_lem :
      (validate : Bytes → Bytes → Bool) (c : Conn W) (methods uname passwd rest : Bytes)
      → c.input ≡ greeting methods ++ (credentials uname passwd ++ rest)
      → negotiate write (some validate) c ≡ (
          if any_is auth_password methods
          then (let w = (write c.out (5 ∷ 2 ∷ [])).0 in
              if validate uname passwd
              then (ok tt, record c { input = rest; out = (write w (1 ∷ 0 ∷ [])).0 })
              else (
                err auth_failed,
                record c {
                  input = rest;
                  out = (write w (1 ∷ 1 ∷ [])).0;
                  auth_failures = add64 c.auth_failures 1;
                },
              ))
          else (
            err auth_failed,
            record c {
              input = credentials uname passwd ++ rest;
              out = (write c.out (5 ∷ 255 ∷ [])).0;
            },
          ))
  unfolding negotiate select_method select_password send send_ignored
  negotiate_lem validate c methods uname passwd rest h =
      let body : Bytes = credentials uname passwd ++ rest in
      let c1 : Conn W = record c { input = methods ++ body } in
      let c2 : Conn W = record c { input = body } in
      ground (
        arith,
        read_lem W E 2 c (5 ∷ length methods ∷ []) (methods ++ body) refl h,
        read_lem W E (length methods) c1 methods body refl refl,
        no_error c.out (5 ∷ 2 ∷ []),
        authenticate_password_lem validate (record c2 { out = (write c.out (5 ∷ 2 ∷ [])).0 }) uname
            passwd rest refl,
      )

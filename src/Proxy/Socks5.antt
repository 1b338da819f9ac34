-- ===== src/Proxy/Socks5.antt =====
-- core/go/internal/proxy/socks5.go: the conversation with a client, up to the relay. The bytes that
-- the client sends are read by `io.ReadFull` from what has come in.
pub mod Requests
pub mod Authentication
use air_bridge5g.Prelude.{
  ℕ, ◌+◌, ◌*◌, ◌/◌, ◌%◌, Bool, true, false, not, Option, none, some, List, [], ◌∷◌, ◌++◌, Bytes,
  ◌==◌, if◌then◌else◌, get_or,
}
use air_bridge5g.Prelude.Stream.{read_full}
use air_bridge5g.Prelude.Int.{add64}
use air_bridge5g.Prelude.Format.{sprintf_port}
use air_bridge5g.Prelude.Map.{str_eq, lookup, insert, erase}

abbrev pub Tokens : Type 0
Tokens = List (Bytes × Bytes)

-- `TokenAuthenticator.Validate`
unfoldable pub validate_token : Tokens → Bytes → Bytes → Bool
validate_token tokens username password = elim (lookup username tokens) [
  | none ↦ false
  | some expected ↦ str_eq expected password
]

unfoldable pub add_token : Bytes → Bytes → Tokens → Tokens
add_token username token tokens = insert username token tokens

unfoldable pub remove_token : Bytes → Tokens → Tokens
remove_token username tokens = erase username tokens

abbrev pub socks5_version : ℕ
socks5_version = 5

abbrev pub auth_password : ℕ
auth_password = 2

abbrev pub reply_success : ℕ
reply_success = 0

abbrev pub reply_not_allow : ℕ
reply_not_allow = 2

abbrev pub reply_host_unreach : ℕ
reply_host_unreach = 4

pub data Error (E : Type 0) : Type 0 where
  read_error unsupported_version unsupported_cmd auth_failed : Error E
  unsupported_atyp : ℕ → Error E
  write_error : E → Error E

-- A client's connection, with the two counters of the server that the conversation moves.
pub record Conn (W : Type 0) : Type 0 where
  pub input : Bytes
  pub out : W
  pub auth_failures : ℕ
  pub connection_errors : ℕ

pub data Reply (E A : Type 0) : Type 0 where
  ok : A → Reply E A
  err : Error E → Reply E A

abbrev pub M : Type 0 → Type 0 → Type 0 → Type 0
M W E A = Conn W → Reply E A × Conn W

infixl 5 ◌>>=◌ ◌>>◌
abbrev pub ◌>>=◌ : {W E A B : Type 0} → M W E A → (A → M W E B) → M W E B
◌>>=◌ m f c = let (r, c') = m c in elim r [ err e ↦ (err e, c') | ok a ↦ f a c' ]

abbrev pub ◌>>◌ : {W E A B : Type 0} → M W E A → M W E B → M W E B
m >> k = m >>= λ _. k

abbrev pub pure : {W E A : Type 0} → A → M W E A
pure a c = (ok a, c)

abbrev pub fail : {W E A : Type 0} → Error E → M W E A
fail e c = (err e, c)

-- `io.ReadFull` into a buffer of `n` bytes
unfoldable pub read : {W E : Type 0} → ℕ → M W E Bytes
read n c = elim (read_full n c.input) [
  | none ↦ (err read_error, record c { input = [] })
  | some (buf, rest) ↦ (ok buf, record c { input = rest })
]

-- A length byte and as many bytes
unfoldable pub read_field : {W E : Type 0} → M W E Bytes
read_field = do n ← read 1; read (get_or n 0 0)

unfoldable pub any_is : ℕ → Bytes → Bool
any_is b [] = false
any_is b (m ∷ ms) = let rest = any_is b ms in if m == b then true else rest

-- An IP address as `To4` and `To16` give it.
pub data Ip : Type 0 where
  ip4 ip16 : Bytes → Ip

-- The array `reply` of `sendReply`.
unfoldable pub reply_bytes : ℕ → Ip → ℕ → Bytes
reply_bytes status (ip4 b) port =
    socks5_version ∷ status ∷ 0 ∷ 1 ∷ b ++ (port / 256) % 256 ∷ port % 256 ∷ []
reply_bytes status (ip16 b) port =
    socks5_version ∷ status ∷ 0 ∷ 4 ∷ b ++ (port / 256) % 256 ∷ port % 256 ∷ []

module _ {W E : Type 0} (write : W → Bytes → W × ℕ × Option E) where
  -- `conn.Write`, with its error
  unfoldable pub send : Bytes → M W E (Unit {0})
  send p c =
      let (w, _, e) = write c.out p in
      elim e [
        | some x ↦ (err (write_error x), record c { out = w })
        | none ↦ (ok tt, record c { out = w })
      ]

  -- The same where the code drops the error.
  unfoldable pub send_ignored : Bytes → M W E (Unit {0})
  send_ignored p c = (ok tt, record c { out = (write c.out p).0 })

  -- The answer to the credentials, at the end of `authenticatePassword`.
  unfoldable pub answer : Bool → M W E (Unit {0})
  answer true = send (1 ∷ 0 ∷ [])
  answer false = do
    (λ c. (ok tt, record c { auth_failures = add64 c.auth_failures 1 }))
    send (1 ∷ 1 ∷ [])
    fail auth_failed

  unfoldable pub authenticate_password : (Bytes → Bytes → Bool) → M W E (Unit {0})
  authenticate_password validate = do
    _ ← read 1
    uname ← read_field
    passwd ← read_field
    answer (validate uname passwd)

  -- The choice of the method, once it is known whether the client offers passwords.
  unfoldable pub select_password : (Bytes → Bytes → Bool) → Bool → M W E (Unit {0})
  select_password validate false = do send_ignored (socks5_version ∷ 255 ∷ []); fail auth_failed
  select_password validate true = do
    send (socks5_version ∷ auth_password ∷ [])
    authenticate_password validate

  unfoldable pub select_method : Option (Bytes → Bytes → Bool) → Bytes → M W E (Unit {0})
  select_method none methods = send (socks5_version ∷ 0 ∷ [])
  select_method (some validate) methods = select_password validate (any_is auth_password methods)

  unfoldable pub negotiate : Option (Bytes → Bytes → Bool) → M W E (Unit {0})
  negotiate auth = do
    header ← read 2
    if get_or header 0 0 == socks5_version
        then (do methods ← read (get_or header 1 0); select_method auth methods)
        else fail unsupported_version

  module _ (ip_string : Bytes → Bytes) where
    -- The `switch` on the address type; `ip_string` stands for `net.IP.String`.
    unfoldable pub read_host : ℕ → M W E Bytes
    read_host atyp =
        if atyp == 1
        then (do addr ← read 4; pure (ip_string addr))
        else if atyp == 3
        then read_field
        else if atyp == 4
        then (do addr ← read 16; pure (ip_string addr))
        else fail (unsupported_atyp atyp)

    -- The address and the port, once the version and the command are right.
    unfoldable pub read_dest : ℕ → M W E Bytes
    read_dest atyp = do
      host ← read_host atyp
      port ← read 2
      pure (sprintf_port host (get_or port 0 0 * 256 + get_or port 1 0))

    unfoldable pub read_request : M W E Bytes
    read_request = do
      header ← read 4
      if not (get_or header 0 0 == socks5_version)
          then fail unsupported_version
          else (if not (get_or header 1 0 == 1)
              then (do
                send_ignored (reply_bytes reply_not_allow (ip4 (0 ∷ 0 ∷ 0 ∷ 0 ∷ [])) 0)
                fail unsupported_cmd)
              else read_dest (get_or header 3 0))

    -- `handleConnection` up to the call of `relay`: the address that is relayed to, if there is one.
    -- `dial` gives the local address of the connection to the target.
    unfoldable pub handle_connection :
        (Bytes → Option (Ip × ℕ)) → Option (Bytes → Bytes → Bool) → Conn W → Option Bytes × Conn W
    handle_connection dial auth c =
        let (r, c1) = negotiate auth c in
        elim r [
          | err _ ↦ (none, c1)
          | ok _ ↦
              let (q, c2) = read_request c1 in
              elim q [
                | err _ ↦ (none, c2)
                | ok dest ↦ elim (dial dest) [
                  | none ↦ (
                    none,
                    record c2 {
                      out =
                          (write c2.out
                            (reply_bytes reply_host_unreach (ip4 (0 ∷ 0 ∷ 0 ∷ 0 ∷ [])) 0)).0;
                      connection_errors = add64 c2.connection_errors 1;
                    },
                  )
                  | some (ip, port) ↦ (
                    some dest,
                    record c2 { out = (write c2.out (reply_bytes reply_success ip port)).0 },
                  )
                ]
              ]
        ]

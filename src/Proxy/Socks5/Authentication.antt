-- ===== src/Proxy/Socks5/Authentication.antt =====
-- Who gets past the negotiation of core/go/internal/proxy/socks5.go.
use air_bridge5g.Prelude.{
  ℕ, ◌≡◌, refl, sym, ap, ◌∙◌, subst, ◌⊎◌, inl, inr, Bool, true, false, Option, some, [], ◌∷◌, ◌++◌,
  append_assoc, arith, Bytes, ◌==◌, if◌then◌else◌, ==_iff, Option-cases, length, get_or,
}
use air_bridge5g.Prelude.Stream.{read_full, read_full-some}
use air_bridge5g.Prelude.Int.{add64}
use air_bridge5g.Proxy.Socks5.{
  Conn, M, Reply, Error, Ip, ok, err, ◌>>=◌, read, any_is, auth_password, authenticate_password,
  negotiate, send, send_ignored, fail, auth_failed, unsupported_version, read_field, answer,
  select_password, select_method, handle_connection, socks5_version,
}

Reply-cases :
    {W E A : Type 0} (r : Reply E A × Conn W)
    → ((a : A) × (c : Conn W) × (r ≡ (ok a, c))) ⊎ ((e : Error E) × (c : Conn W) × (r ≡ (err e, c)))
Reply-cases (ok a, c) = inl (a, c, refl)
Reply-cases (err e, c) = inr (e, c, refl)

-- The first of two statements that succeed, on what it returned.
then-ok :
    {W E A B : Type 0} (r : Reply E A × Conn W) (f : A → M W E B) {c'' : Conn W} {b : B}
    → elim r.0 [ err e ↦ (err e, r.1) | ok a ↦ f a r.1 ] ≡ (ok b, c'')
    → (a : A) × (c' : Conn W) × (r ≡ (ok a, c')) × (f a c' ≡ (ok b, c''))
then-ok (ok a, c') f h = (a, c', refl, h)
then-ok (err e, c') f h = cc

>>=-ok :
    {W E A B : Type 0} (m : M W E A) (f : A → M W E B) (c : Conn W) {c'' : Conn W} {b : B}
    → (m >>= f) c ≡ (ok b, c'')
    → (a : A) × (c' : Conn W) × (m c ≡ (ok a, c')) × (f a c' ≡ (ok b, c''))
>>=-ok m f c h = then-ok (m c) f h

read-ok :
    {W E : Type 0} (n : ℕ) (c : Conn W) {c' : Conn W} {buf : Bytes}
    → ◌≡◌ {A = Reply E Bytes × Conn W} (read n c) (ok buf, c')
    → (length buf ≡ n) × (c.input ≡ buf ++ c'.input)
unfolding read
read-ok n c {c'} h = elim (Option-cases (read_full n c.input)) [
  | inl e ↦ absurd (ground (arith, e))
  | inr ((buf', rest), e) ↦ let (l, a) = read_full-some n c.input e in ground (arith, e, l, a)
]

send-ok :
    {W E : Type 0} (write : W → Bytes → W × ℕ × Option E) (p : Bytes) (c : Conn W) {c' : Conn W}
    → send write p c ≡ (ok tt, c')
    → c'.input ≡ c.input
unfolding send
send-ok write p c h = ground arith

read_field-ok :
    {W E : Type 0} (c : Conn W) {c' : Conn W} {buf : Bytes}
    → ◌≡◌ {A = Reply E Bytes × Conn W} (read_field c) (ok buf, c')
    → (n : Bytes) × (length n ≡ 1)
      × (length buf ≡ get_or n 0 0)
      × (c.input ≡ n ++ (buf ++ c'.input))
unfolding read_field
read_field-ok c {c'} {buf} h =
    let (n, c1, h1, k1) = >>=-ok (read 1) (λ n. read (get_or n 0 0)) c h in
    let (l1, a1) = read-ok 1 c h1 in
    let (l2, a2) = read-ok (get_or n 0 0) c1 k1 in (n, l1, l2, a1 ∙ ap (λ i. n ++ i) a2)

-- The bytes of a sub-negotiation with these credentials, and what follows it.
abbrev pub Presents : Bytes → Bytes → Bytes → Bytes → Type 0
Presents input uname passwd rest =
    (ver ulen plen : Bytes) × (input ≡ ver ++ (ulen ++ (uname ++ (plen ++ (passwd ++ rest)))))
    × (length ver ≡ 1)
    × (length ulen ≡ 1)
    × (length plen ≡ 1)
    × (length uname ≡ get_or ulen 0 0)
    × (length passwd ≡ get_or plen 0 0)

module _ {W E : Type 0} (write : W → Bytes → W × ℕ × Option E) where
  answer-ok :
      (granted : Bool) (c : Conn W) {c' : Conn W}
      → answer write granted c ≡ (ok tt, c')
      → (granted ≡ true) × (c'.input ≡ c.input)
  unfolding answer
  answer-ok true c h = (refl, send-ok write (1 ∷ 0 ∷ []) c h)
  answer-ok false c h =
      let (_, _, _, h1) =
        >>=-ok (send write (1 ∷ 1 ∷ [])) (λ _. fail auth_failed)
          (record c { auth_failures = add64 c.auth_failures 1 }) h in
      cc

  authenticate_password-ok :
      (validate : Bytes → Bytes → Bool) (c : Conn W) {c' : Conn W}
      → authenticate_password write validate c ≡ (ok tt, c')
      → (uname passwd : Bytes) × (validate uname passwd ≡ true)
        × Presents c.input uname passwd c'.input
  unfolding authenticate_password
  authenticate_password-ok validate c h =
      let (ver, c1, h1, k1) =
        >>=-ok (read 1) (λ _. read_field >>= λ u. read_field >>= λ p. answer write (validate u p)) c
          h in
      let (uname, c2, h2, k2) =
        >>=-ok read_field (λ u. read_field >>= λ p. answer write (validate u p)) c1 k1 in
      let (passwd, c3, h3, k3) = >>=-ok read_field (λ p. answer write (validate uname p)) c2 k2 in
      let (l1, a1) = read-ok 1 c h1 in
      let (ulen, l2, m2, a2) = read_field-ok c1 h2 in
      let (plen, l3, m3, a3) = read_field-ok c2 h3 in
      let (v, a4) = answer-ok (validate uname passwd) c3 k3 in
      (uname, passwd, v, (ver, ulen, plen, ground (arith, a1, a2, a3, a4), l1, l2, l3, m2, m3))

  select_password-ok :
      (validate : Bytes → Bytes → Bool) (offered : Bool) (c : Conn W) {c' : Conn W}
      → select_password write validate offered c ≡ (ok tt, c')
      → (offered ≡ true)
        × (uname : Bytes) × (passwd : Bytes) × (validate uname passwd ≡ true)
        × Presents c.input uname passwd c'.input
  unfolding select_password send_ignored
  select_password-ok validate false c h = cc
  select_password-ok validate true c {c'} h =
      let (_, c1, h1, k1) =
        >>=-ok (send write (socks5_version ∷ auth_password ∷ []))
          (λ _. authenticate_password write validate) c h in
      let (uname, passwd, v, p) = authenticate_password-ok validate c1 k1 in
      (
        refl,
        uname,
        passwd,
        v,
        subst (λ i. Presents i uname passwd c'.input)
            (send-ok write (socks5_version ∷ auth_password ∷ []) c h1) p,
      )

  version-ok :
      (right : Bool) (m : M W E (Unit {0})) (c : Conn W) {c' : Conn W}
      → (if right then m else fail unsupported_version) c ≡ (ok tt, c')
      → (right ≡ true) × (m c ≡ (ok tt, c'))
  version-ok true m c h = (refl, h)
  version-ok false m c h = cc

  -- Whenever the negotiation of a server that has an authenticator succeeds, on any connection,
  -- the client's bytes were a greeting of version 5 that offers the password method, then a
  -- sub-negotiation with credentials that the authenticator accepts, and what is left to read is
  -- what followed these.
  pub negotiate-Authenticated :
      (validate : Bytes → Bytes → Bool) (c c' : Conn W)
      → negotiate write (some validate) c ≡ (ok tt, c')
      → (header methods input : Bytes) × (uname passwd : Bytes) × (c.input
          ≡ header ++ (methods ++ input))
        × (length header ≡ 2)
        × (get_or header 0 0 ≡ socks5_version)
        × (length methods ≡ get_or header 1 0)
        × (any_is auth_password methods ≡ true)
        × (validate uname passwd ≡ true)
        × Presents input uname passwd c'.input
  unfolding negotiate select_method
  negotiate-Authenticated validate c c' h =
      let rest : Bytes → M W E (Unit {0}) = λ header.
        read (get_or header 1 0) >>= λ methods. select_method write (some validate) methods in
      let (header, c1, h1, k1) =
        >>=-ok (read 2)
          (λ header.
            if get_or header 0 0 == socks5_version then rest header else fail unsupported_version)
          c h in
      let (l1, a1) = read-ok 2 c h1 in
      let (v, k2) = version-ok (get_or header 0 0 == socks5_version) (rest header) c1 k1 in
      let (methods, c2, h2, k3) =
        >>=-ok (read (get_or header 1 0)) (λ methods. select_method write (some validate) methods)
          c1 k2 in
      let (l2, a2) = read-ok (get_or header 1 0) c1 h2 in
      let (o, uname, passwd, granted, p) =
        select_password-ok validate (any_is auth_password methods) c2 k3 in
      (
        header,
        methods,
        c2.input,
        uname,
        passwd,
        a1 ∙ ap (λ i. header ++ i) a2,
        l1,
        (==_iff (get_or header 0 0) socks5_version).0 v,
        l2,
        o,
        granted,
        p,
      )

  -- A server with an authenticator relays nothing for a client that it has not accepted: whenever
  -- `handleConnection` comes to relay to some address, the negotiation has succeeded, so the
  -- authenticator accepts some credentials that the client has presented in its bytes.
  pub handle_connection-Authenticated :
      (ip_string : Bytes → Bytes) (dial : Bytes → Option (Ip × ℕ)) (validate : Bytes → Bytes → Bool)
      (c c' : Conn W) (dest : Bytes)
      → handle_connection write ip_string dial (some validate) c ≡ (some dest, c')
      → (front input rest : Bytes) × (uname passwd : Bytes) × (c.input ≡ front ++ input)
        × (validate uname passwd ≡ true)
        × Presents input uname passwd rest
  unfolding handle_connection
  handle_connection-Authenticated ip_string dial validate c c' dest h =
      elim (Reply-cases (negotiate write (some validate) c)) [
        | inr (e, c1, r) ↦ absurd (ground (arith, r))
        | inl (_, c1, r) ↦
            let (header, methods, input, uname, passwd, a, _, _, _, _, v, p) =
              negotiate-Authenticated validate c c1 r in
            (
              header ++ methods,
              input,
              c1.input,
              uname,
              passwd,
              a ∙ sym (append_assoc header methods input),
              v,
              p,
            )
      ]

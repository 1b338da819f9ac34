-- ===== src/Protocol/Negotiation/Mutual.antt =====
-- What core/go/internal/protocol/negotiation.go agrees on.
use air_bridge5g.Prelude.{
  ◌≡◌, refl, sym, ap, ◌∙◌, subst, inl, inr, Bool, true, false, ◌&&◌, ◌||◌, List, [], ◌∷◌, ◌++◌,
  arith, Bytes, Bool-cases, All,
}
use air_bridge5g.Prelude.Result.{Result, ok, err, chain_ok}
use air_bridge5g.Prelude.Map.{str_eq, str_eq_iff, str_eq_comm}
use air_bridge5g.Protocol.Negotiation.{
  Capabilities, SessionProfile, NegotiationError, no_aead, no_transport, no_pattern, set_of, has,
  first_in, negotiate_aead, negotiate_transport, negotiate_noise_pattern, negotiate_capabilities,
}

-- `x` stands in the local list, with nothing before it that the remote list has, and the remote
-- list has it.
pub record IsFirstMutual (local remote : List Bytes) (x : Bytes) : Type 0 where
  pub before : List Bytes
  pub after : List Bytes
  pub splits : local ≡ before ++ x ∷ after
  pub none_before : All (λ y. has remote y ≡ false) before
  pub remote_has : has remote x ≡ true

has-set_of : (s xs : List Bytes) (y : Bytes) → has (set_of s xs) y ≡ (has xs y || has s y)
unfolding set_of has
has-set_of s [] y = refl
has-set_of s (x ∷ xs) y = ground (arith, has-set_of (x ∷ s) xs y)

-- What a negotiating function says of its two lists.
abbrev pub Negotiated :
    List Bytes → List Bytes → NegotiationError → Result NegotiationError Bytes → Type 0
Negotiated local remote e (ok x) = IsFirstMutual local remote x
Negotiated local remote e (err d) = (d ≡ e) × All (λ y. has remote y ≡ false) local

Negotiated-cons :
    (x : Bytes) (xs remote : List Bytes) (e : NegotiationError) (r : Result NegotiationError Bytes)
    → has remote x ≡ false
    → Negotiated xs remote e r
    → Negotiated (x ∷ xs) remote e r
Negotiated-cons x xs remote e (ok y) no_x h = record {
  before = x ∷ h.before;
  after = h.after;
  splits = ap (◌∷◌ x) h.splits;
  none_before = (no_x, h.none_before);
  remote_has = h.remote_has;
}
Negotiated-cons x xs remote e (err d) no_x h = (h.0, (no_x, h.1))

has_lem : (remote : List Bytes) (x : Bytes) → has (set_of [] remote) x ≡ has remote x
unfolding has
has_lem remote x = ground (arith, has-set_of [] remote x)

first_in-Negotiated :
    (remote local : List Bytes) (e : NegotiationError)
    → Negotiated local remote e (first_in (set_of [] remote) local e)
unfolding first_in
first_in-Negotiated remote [] e = (refl, tt)
first_in-Negotiated remote (x ∷ xs) e = elim (Bool-cases (has remote x)) [
  | inl yes_x ↦
      rw (has_lem remote x, yes_x)
        (record { before = []; after = xs; splits = refl; none_before = tt; remote_has = yes_x })
  | inr no_x ↦
      rw (has_lem remote x, no_x)
        (Negotiated-cons x xs remote e (first_in (set_of [] remote) xs e) no_x
          (first_in-Negotiated remote xs e))
]

-- Each negotiating function takes the first string of the local list that the remote list has too,
-- and reports its own error exactly when no local string is a remote one.
pub negotiate-Negotiated :
    (local remote : List Bytes)
    → Negotiated local remote no_aead (negotiate_aead local remote)
      × Negotiated local remote no_transport (negotiate_transport local remote)
      × Negotiated local remote no_pattern (negotiate_noise_pattern local remote)
unfolding negotiate_aead negotiate_transport negotiate_noise_pattern
negotiate-Negotiated local remote = (
  first_in-Negotiated remote local no_aead,
  first_in-Negotiated remote local no_transport,
  first_in-Negotiated remote local no_pattern,
)

-- What the two sides of a profile have in common.
pub record IsAgreed (local remote : Capabilities) (p : SessionProfile) : Type 0 where
  pub same_version : local.protocol_version ≡ remote.protocol_version
  pub version : p.protocol_version ≡ local.protocol_version
  pub aead : IsFirstMutual local.aead_suites remote.aead_suites p.aead
  pub transport : IsFirstMutual local.transports remote.transports p.transport
  pub pattern : IsFirstMutual local.handshake_modes remote.handshake_modes p.noise_pattern

ok-injective :
    {p q : SessionProfile} → ◌≡◌ {A = Result NegotiationError SessionProfile} (ok p) (ok q) → p ≡ q
ok-injective e = cc

-- A profile that `NegotiateCapabilities` returns has the version of both sides, and of each of the
-- three lists the first local entry that the remote side has too.
pub negotiate_capabilities-IsAgreed :
    (local remote : Capabilities) {p : SessionProfile}
    → negotiate_capabilities local remote ≡ ok p
    → IsAgreed local remote p
unfolding negotiate_capabilities
negotiate_capabilities-IsAgreed local remote {p} h =
    elim (Bool-cases (str_eq local.protocol_version remote.protocol_version)) [
      | inr differ ↦ absurd (ground arith)
      | inl same ↦
          let n = negotiate-Negotiated in
          let (a, ea, h1) =
            chain_ok (negotiate_aead local.aead_suites remote.aead_suites) _ (rw same at h) in
          let (t, et, h2) =
            chain_ok (negotiate_transport local.transports remote.transports) _ h1 in
          let (m, em, h3) =
            chain_ok (negotiate_noise_pattern local.handshake_modes remote.handshake_modes) _ h2 in
          subst (IsAgreed local remote) (ok-injective h3) (record {
            same_version = (str_eq_iff _ _).0 same;
            version = refl;
            aead = rw ea at ((n local.aead_suites remote.aead_suites).0);
            transport = rw et at ((n local.transports remote.transports).1);
            pattern = rw em at ((n local.handshake_modes remote.handshake_modes).2);
          })
    ]

-- Some string of the first list is in the second.
abbrev meets : List Bytes → List Bytes → Bool
meets [] remote = false
meets (x ∷ xs) remote = has remote x || meets xs remote

meets_cons :
    (xs remote : List Bytes) (y : Bytes) → meets xs (y ∷ remote) ≡ (has xs y || meets xs remote)
unfolding has
meets_cons [] remote y = refl
meets_cons (x ∷ xs) remote y = ground (arith, meets_cons xs remote y, str_eq_comm x y)

meets_nil : (xs : List Bytes) → meets xs [] ≡ false
unfolding has
meets_nil [] = refl
meets_nil (x ∷ xs) = meets_nil xs

meets_comm : (xs ys : List Bytes) → meets xs ys ≡ meets ys xs
meets_comm xs [] = meets_nil xs
meets_comm xs (y ∷ ys) = meets_cons xs ys y ∙ rw (meets_comm xs ys)

abbrev pub is_ok {ℓ} : {E A : Type ℓ} → Result E A → Bool
is_ok (ok a) = true
is_ok (err e) = false

is_ok-first_in :
    (remote local : List Bytes) (e : NegotiationError)
    → is_ok (first_in (set_of [] remote) local e) ≡ meets local remote
unfolding first_in
is_ok-first_in remote [] e = refl
is_ok-first_in remote (x ∷ xs) e = ground (arith, has_lem remote x, is_ok-first_in remote xs e)

is_ok-negotiate :
    (local remote : Capabilities)
    → is_ok (negotiate_capabilities local remote) ≡ (
        str_eq local.protocol_version remote.protocol_version
        && (meets local.aead_suites remote.aead_suites
            && (meets local.transports remote.transports
                && meets local.handshake_modes remote.handshake_modes)))
unfolding negotiate_capabilities negotiate_aead negotiate_transport negotiate_noise_pattern
is_ok-negotiate local remote = ground (
  arith,
  is_ok-first_in remote.aead_suites local.aead_suites no_aead,
  is_ok-first_in remote.transports local.transports no_transport,
  is_ok-first_in remote.handshake_modes local.handshake_modes no_pattern,
)

-- Two sides agree on a profile in one direction exactly when they do in the other.
pub negotiate_capabilities-symmetric :
    (local remote : Capabilities)
    → is_ok (negotiate_capabilities local remote) ≡ is_ok (negotiate_capabilities remote local)
negotiate_capabilities-symmetric local remote =
    is_ok-negotiate local remote
    ∙ rw
        (
          str_eq_comm local.protocol_version remote.protocol_version,
          meets_comm local.aead_suites remote.aead_suites,
          meets_comm local.transports remote.transports,
          meets_comm local.handshake_modes remote.handshake_modes,
        )
        (sym (is_ok-negotiate remote local))

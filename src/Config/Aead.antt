-- ===== src/Config/Aead.antt =====
-- The AEAD preference of core/go/internal/config/config.go in a negotiation.
use air_bridge5g.Prelude.{
  ◌≡◌, refl, ◌⊎◌, inl, inr, Bool, true, false, List, [], ◌∷◌, arith, Bytes, codes, if◌then◌else◌,
  Bool-cases, All, All-append,
}
use air_bridge5g.Prelude.Result.{ok}
use air_bridge5g.Prelude.Map.{str_eq, str_eq_refl}
use air_bridge5g.Prelude.Texts.{split_on, trim_space}
use air_bridge5g.Protocol.Negotiation.{
  aead_aes_256_gcm, aead_chacha20_poly1305, default_capabilities, has, set_of, first_in,
  negotiate_aead,
}
use air_bridge5g.Config.{
  suites_of, parse_parts, parse_aead_preference, Environment, env, load_from_env,
}

abbrev AreSuites : List Bytes → Type 0
AreSuites xs = All (λ (x : Bytes). (x ≡ aead_aes_256_gcm) ⊎ (x ≡ aead_chacha20_poly1305)) xs

choose-AreSuites :
    (a b : Bool)
    → AreSuites
        (if a then aead_aes_256_gcm ∷ [] else (if b then aead_chacha20_poly1305 ∷ [] else []))
choose-AreSuites true b = (inl refl, tt)
choose-AreSuites false true = (inr refl, tt)
choose-AreSuites false false = tt

suites_of-AreSuites : (part : Bytes) → AreSuites (suites_of part)
unfolding suites_of
suites_of-AreSuites part = choose-AreSuites _ _

parse_parts-AreSuites : (parts : List Bytes) → AreSuites (parse_parts parts)
unfolding parse_parts
parse_parts-AreSuites [] = tt
parse_parts-AreSuites (part ∷ parts) =
    All-append _ (suites_of part) (parse_parts parts) (suites_of-AreSuites part)
      (parse_parts-AreSuites parts)

-- A first suite, and it is one of the two.
abbrev IsPreference : List Bytes → Type 0
IsPreference xs =
    (suite : Bytes) × (rest : List Bytes) × (xs ≡ suite ∷ rest)
    × ((suite ≡ aead_aes_256_gcm) ⊎ (suite ≡ aead_chacha20_poly1305))

or_default :
    (xs : List Bytes)
    → AreSuites xs
    → IsPreference
        (elim xs [ [] ↦ default_capabilities.aead_suites | suite ∷ suites ↦ suite ∷ suites ])
or_default [] h = (aead_chacha20_poly1305, aead_aes_256_gcm ∷ [], refl, inr refl)
or_default (x ∷ xs) h = (x, xs, refl, h.0)

parse_aead_preference-IsPreference : (raw : Bytes) → IsPreference (parse_aead_preference raw)
unfolding parse_aead_preference
parse_aead_preference-IsPreference raw = elim (Bool-cases (str_eq (trim_space raw) [])) [
  | inl e ↦ rw e (aead_chacha20_poly1305, aead_aes_256_gcm ∷ [], refl, inr refl)
  | inr e ↦
      rw e
        (or_default (parse_parts (split_on b',' raw)) (parse_parts-AreSuites (split_on b',' raw)))
]

negotiate_first :
    (suite : Bytes) (rest : List Bytes)
    → (suite ≡ aead_aes_256_gcm) ⊎ (suite ≡ aead_chacha20_poly1305)
    → negotiate_aead (suite ∷ rest) default_capabilities.aead_suites ≡ ok suite
unfolding negotiate_aead first_in set_of has
negotiate_first suite rest h = ground (arith, h, str_eq_refl suite)

-- Whatever the environment sets, misspelt names and empty lists included, the configuration prefers
-- some AEAD suite, and a negotiation of that preference with a peer of the default capabilities
-- succeeds with the suite that is preferred first.
pub load_from_env-negotiates :
    (vars : Environment)
    → let preference = (load_from_env vars).aead_preference in
      (suite : Bytes) × (rest : List Bytes) × (preference ≡ suite ∷ rest)
      × (negotiate_aead preference default_capabilities.aead_suites ≡ ok suite)
unfolding load_from_env
load_from_env-negotiates vars =
    let (suite, rest, e, h) =
      parse_aead_preference-IsPreference (env vars (codes "SECUREMESH_AEAD") []) in
    (suite, rest, e, rw e (negotiate_first suite rest h))

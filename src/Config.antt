-- ===== src/Config.antt =====
-- core/go/internal/config/config.go: the configuration from the environment, which is a map from the
-- names of variables. What the storage and the tracing library take is left as text.
pub mod Aead
use air_bridge5g.Prelude.{Bool, none, some, List, [], ◌∷◌, ◌++◌, Bytes, codes, if◌then◌else◌}
use air_bridge5g.Prelude.Map.{str_eq, lookup}
use air_bridge5g.Prelude.Texts.{split_on, trim_space}
use air_bridge5g.Privacy.UserAgent.{to_lower, is_one_of}
use air_bridge5g.Protocol.Negotiation.{
  aead_aes_256_gcm, aead_chacha20_poly1305, default_capabilities,
}

abbrev pub Environment : Type 0
Environment = List (Bytes × Bytes)

-- `os.Getenv`
unfoldable pub getenv : Environment → Bytes → Bytes
getenv vars name = elim (lookup name vars) [ none ↦ [] | some value ↦ value ]

unfoldable pub env : Environment → Bytes → Bytes → Bytes
env vars name fallback =
    let value = trim_space (getenv vars name) in if str_eq value [] then fallback else value

abbrev pub aes_names : List Bytes
aes_names = codes "aes" ∷ codes "aes-gcm" ∷ codes "aes256gcm" ∷ codes "aes-256-gcm" ∷ []

abbrev pub chacha_names : List Bytes
chacha_names =
    codes "chacha" ∷ codes "chacha20" ∷ codes "chacha20poly1305" ∷ codes "chacha20-poly1305" ∷ []

-- The `switch` on one part.
unfoldable pub suites_of : Bytes → List Bytes
suites_of part =
    let name = to_lower (trim_space part) in
    if is_one_of aes_names name
    then aead_aes_256_gcm ∷ []
    else (if is_one_of chacha_names name then aead_chacha20_poly1305 ∷ [] else [])

unfoldable pub parse_parts : List Bytes → List Bytes
parse_parts [] = []
parse_parts (part ∷ parts) = suites_of part ++ parse_parts parts

unfoldable pub parse_aead_preference : Bytes → List Bytes
parse_aead_preference raw =
    if str_eq (trim_space raw) []
    then aead_chacha20_poly1305 ∷ aead_aes_256_gcm ∷ []
    else elim (parse_parts (split_on b',' raw)) [
      | [] ↦ default_capabilities.aead_suites
      | suite ∷ suites ↦ suite ∷ suites
    ]

-- `strconv.ParseBool`, where an error counts as false.
unfoldable pub parse_bool : Bytes → Bool
parse_bool raw =
    is_one_of (codes "1" ∷ codes "t" ∷ codes "T" ∷ codes "true" ∷ codes "TRUE" ∷ codes "True" ∷ [])
      raw

-- `parse_float` stands for `strconv.ParseFloat`, and is left to the caller.
pub record Config : Type 0 where
  pub node_id : Bytes
  pub aead_preference : List Bytes
  pub driver : Bytes
  pub path : Bytes
  pub service_name : Bytes
  pub otlp_endpoint : Bytes
  pub otlp_insecure : Bool
  pub sample_ratio : Bytes

unfoldable pub load_from_env : Environment → Config
load_from_env vars = record {
  node_id = env vars (codes "SECUREMESH_NODE_ID") (codes "local-dev-node");
  aead_preference = parse_aead_preference (env vars (codes "SECUREMESH_AEAD") []);
  driver = env vars (codes "SECUREMESH_STATE_DRIVER") (codes "sqlite");
  path = env vars (codes "SECUREMESH_STATE_PATH") (codes "securemesh.db");
  service_name = env vars (codes "SECUREMESH_SERVICE_NAME") (codes "securemesh-node");
  otlp_endpoint = env vars (codes "SECUREMESH_OTEL_ENDPOINT") [];
  otlp_insecure = parse_bool (env vars (codes "SECUREMESH_OTEL_INSECURE") (codes "true"));
  sample_ratio = env vars (codes "SECUREMESH_TRACE_SAMPLE_RATIO") (codes "1.0");
}

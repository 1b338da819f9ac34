-- ===== src/Services/IpLimiter.antt =====
-- core/go/internal/services/grpc_server.go: the sliding window of requests for each address, and
-- the interceptor that asks it. Times are numbers of nanoseconds; the mutex makes `allow` one step.
pub mod Window
pub mod Bound
use air_bridge5g.Prelude.{
  ℕ, ◌+◌, ◌*◌, Bool, true, false, Option, none, some, List, [], ◌∷◌, ◌++◌, Bytes, codes, ltb, leb,
  if◌then◌else◌, length,
}
use air_bridge5g.Prelude.Map.{lookup, insert, str_eq}

abbrev pub Requests : Type 0
Requests = List (Bytes × List ℕ)

-- `t.After(now.Add(-window))`, with the window on the other side.
abbrev pub is_live : ℕ → ℕ → ℕ → Bool
is_live window now t = ltb now (t + window)

-- The loop that keeps the timestamps that are live.
unfoldable pub valid_at : ℕ → ℕ → List ℕ → List ℕ
valid_at window now [] = []
valid_at window now (t ∷ ts) =
    let rest = valid_at window now ts in if is_live window now t then t ∷ rest else rest

-- `lim.requests[ip]`, which is an empty slice for a missing key.
unfoldable pub timestamps : Bytes → Requests → List ℕ
timestamps ip m = elim (lookup ip m) [ some ts ↦ ts | none ↦ [] ]

unfoldable pub allow : Requests → Bytes → ℕ → ℕ → ℕ → Requests × Bool
allow m ip limit window now =
    let fresh = valid_at window now (timestamps ip m) in
    if leb limit (length fresh)
    then (insert ip fresh m, false)
    else (insert ip (fresh ++ now ∷ []) m, true)

abbrev pub minute : ℕ
minute = 60 * 1_000_000_000

pub data Decision : Type 0 where
  exhausted_import exhausted handled : Decision

abbrev pub import_method : Bytes
import_method = codes "/airbridge.control.v1.ControlPlane/ImportQRCredentials"

-- The address that the limiter goes by: `split` stands for the host of `net.SplitHostPort`, `none`
-- for its error, and a missing peer is `none`.
unfoldable pub peer_ip : (Bytes → Option Bytes) → Option Bytes → Bytes
peer_ip split none = codes "127.0.0.1"
peer_ip split (some addr) = elim (split addr) [ some host ↦ host | none ↦ addr ]

unfoldable pub check_general : Requests → Bytes → ℕ → Requests × Decision
check_general m ip now =
    let (m', granted) = allow m (ip ++ codes ":general") 60 minute now in
    (m', if granted then handled else exhausted)

-- `rateLimitUnaryInterceptor`: whether the handler is called. The two readings of the clock are
-- those of the two calls of `allow`.
unfoldable pub intercept : Requests → Bytes → Bytes → ℕ → ℕ → Requests × Decision
intercept m ip method now now' =
    let (m', granted) = allow m (ip ++ codes ":import") 10 minute now in
    if str_eq method import_method
    then (if granted then check_general m' ip now' else (m', exhausted_import))
    else check_general m ip now'

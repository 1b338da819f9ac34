-- ===== src/Services/IpLimiter/Window.antt =====
-- The limiter of core/go/internal/services/grpc_server.go against the whole history of its grants.
use air_bridge5g.Prelude.{
  ℕ, ◌+◌, ◌≤◌, ◌≡◌, refl, Bool, true, false, ◌&&◌, List, [], ◌∷◌, ◌++◌, arith, Bytes, ltb,
  if◌then◌else◌, length,
}
use air_bridge5g.Prelude.Map.{lookup, insert, str_eq, str_eq_iff, lookup-insert}
use air_bridge5g.Services.IpLimiter.{Requests, valid_at, timestamps, allow}

-- The times at which calls for `k` were granted.
abbrev grants : Bytes → List (Bytes × ℕ) → List ℕ
grants k [] = []
grants k ((j, t) ∷ log) = if str_eq j k then t ∷ grants k log else grants k log

-- How many calls for `k` were granted less than a window ago.
unfoldable pub recent : ℕ → ℕ → Bytes → List (Bytes × ℕ) → ℕ
recent window now k [] = 0
recent window now k ((j, t) ∷ log) =
    (if str_eq j k && ltb now (t + window) then 1 else 0) + recent window now k log

recent_lem :
    (window now : ℕ) (k : Bytes) (log : List (Bytes × ℕ))
    → recent window now k log ≡ length (valid_at window now (grants k log))
unfolding recent valid_at
recent_lem window now k [] = refl
recent_lem window now k ((j, t) ∷ log) = ground (arith, recent_lem window now k log)

-- The limiter that never forgets: it grants a call when fewer than the limit of its key are recent.
abbrev pub spec_step : (Bytes → ℕ) → ℕ → List (Bytes × ℕ) → Bytes → ℕ → List (Bytes × ℕ) × Bool
spec_step limit window log k now =
    if ltb (recent window now k log) (limit k) then (log ++ (k, now) ∷ [], true) else (log, false)

module _ (limit : Bytes → ℕ) (window : ℕ) where
  -- The decisions on a sequence of calls, and the state behind them.
  abbrev pub run : Requests → List (Bytes × ℕ) → Requests × List Bool
  run m [] = (m, [])
  run m ((k, now) ∷ calls) =
      let (m', granted) = allow m k (limit k) window now in
      let (m'', rest) = run m' calls in (m'', granted ∷ rest)

  abbrev pub spec_run : List (Bytes × ℕ) → List (Bytes × ℕ) → List (Bytes × ℕ) × List Bool
  spec_run log [] = (log, [])
  spec_run log ((k, now) ∷ calls) =
      let (log', granted) = spec_step limit window log k now in
      let (log'', rest) = spec_run log' calls in (log'', granted ∷ rest)

-- The readings of the clock do not go back.
abbrev pub InOrder : ℕ → List (Bytes × ℕ) → Type 0
InOrder last [] = Unit
InOrder last ((k, now) ∷ calls) = (last ≤ now) × InOrder now calls

valid_at-append :
    (window now : ℕ) (xs ys : List ℕ)
    → valid_at window now (xs ++ ys) ≡ valid_at window now xs ++ valid_at window now ys
unfolding valid_at
valid_at-append window now [] ys = refl
valid_at-append window now (x ∷ xs) ys = ground (arith, valid_at-append window now xs ys)

valid_at-valid_at :
    (window now now' : ℕ) (xs : List ℕ)
    → now ≤ now'
    → valid_at window now' (valid_at window now xs) ≡ valid_at window now' xs
unfolding valid_at
valid_at-valid_at window now now' [] h = refl
valid_at-valid_at window now now' (x ∷ xs) h =
    ground (arith, valid_at-valid_at window now now' xs h)

grants-append :
    (k j : Bytes) (t : ℕ) (log : List (Bytes × ℕ))
    → grants k (log ++ (j, t) ∷ []) ≡ (if str_eq j k then grants k log ++ t ∷ [] else grants k log)
grants-append k j t [] = ground arith
grants-append k j t ((i, s) ∷ log) = ground (arith, grants-append k j t log)

-- From `last` on, what is stored for a key and what was granted to it agree on all that is recent.
abbrev Agrees : ℕ → ℕ → Requests → List (Bytes × ℕ) → Type 0
Agrees window last m log =
    (k : Bytes) (now : ℕ)
    → last ≤ now
    → valid_at window now (timestamps k m) ≡ valid_at window now (grants k log)

timestamps-insert :
    (k j : Bytes) (ts : List ℕ) (m : Requests)
    → timestamps j (insert k ts m) ≡ (if str_eq k j then ts else timestamps j m)
unfolding timestamps
timestamps-insert k j ts m = ground (arith, lookup-insert k j ts m)

allow-decision :
    (limit : Bytes → ℕ) (window last : ℕ) (m : Requests) (log : List (Bytes × ℕ)) (k : Bytes)
    (now : ℕ)
    → Agrees window last m log
    → last ≤ now
    → (allow m k (limit k) window now).1 ≡ (spec_step limit window log k now).1
unfolding allow
allow-decision limit window last m log k now a h =
    ground (arith, a k now h, recent_lem window now k log)

allow-Agrees :
    (limit : Bytes → ℕ) (window last : ℕ) (m : Requests) (log : List (Bytes × ℕ)) (k : Bytes)
    (now : ℕ)
    → Agrees window last m log
    → last ≤ now
    → Agrees window now (allow m k (limit k) window now).0 (spec_step limit window log k now).0
unfolding allow
allow-Agrees limit window last m log k now a h j now' h' = ground (
  arith,
  a k now h,
  recent_lem window now k log,
  a k now' (omega arith),
  a j now' (omega arith),
  str_eq_iff k j,
  valid_at-valid_at window now now' (timestamps k m) h',
  timestamps-insert k j (valid_at window now (timestamps k m)) m,
  timestamps-insert k j (valid_at window now (timestamps k m) ++ now ∷ []) m,
  valid_at-append window now' (valid_at window now (timestamps k m)) (now ∷ []),
  valid_at-append window now' (grants k log) (now ∷ []),
  grants-append j k now log,
)

run-Agrees :
    (limit : Bytes → ℕ) (window last : ℕ) (m : Requests) (log calls : List (Bytes × ℕ))
    → Agrees window last m log
    → InOrder last calls
    → (run limit window m calls).1 ≡ (spec_run limit window log calls).1
run-Agrees limit window last m log [] a h = refl
run-Agrees limit window last m log ((k, now) ∷ calls) a h = ground (
  arith,
  allow-decision limit window last m log k now a h.0,
  run-Agrees limit window now (allow m k (limit k) window now).0
      (spec_step limit window log k now).0 calls (allow-Agrees limit window last m log k now a h.0)
      h.1,
)

empty-Agrees : (window : ℕ) → Agrees window 0 [] []
unfolding timestamps valid_at lookup
empty-Agrees window k now h = refl

-- Take any limits for the keys, any window, and any sequence of calls at times that do not go back.
-- From the empty map, the limiter, which drops what is no longer recent, decides every call as the
-- limiter does that keeps all its grants and counts those of the key less than a window ago.
pub run-refines_spec :
    (limit : Bytes → ℕ) (window : ℕ) (calls : List (Bytes × ℕ))
    → InOrder 0 calls
    → (run limit window [] calls).1 ≡ (spec_run limit window [] calls).1
run-refines_spec limit window calls h =
    run-Agrees limit window 0 [] [] calls (empty-Agrees window) h

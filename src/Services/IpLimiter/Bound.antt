-- ===== src/Services/IpLimiter/Bound.antt =====
-- How much the limiter of core/go/internal/services/grpc_server.go grants in one window.
use air_bridge5g.Prelude.{
  ℕ, ◌+◌, ◌≤◌, ◌≡◌, sym, subst, inl, inr, Bool, true, false, ◌&&◌, List, [], ◌∷◌, ◌++◌,
  append_assoc, append-nil, arith, Bytes, ltb, if◌then◌else◌, Bool-cases,
}
use air_bridge5g.Prelude.Map.{str_eq, str_eq_iff}
use air_bridge5g.Services.IpLimiter.Window.{
  recent, spec_step, spec_run, run, InOrder, run-refines_spec,
}

recent-antitone :
    (window now now' : ℕ) (k : Bytes) (log : List (Bytes × ℕ))
    → now ≤ now'
    → recent window now' k log ≤ recent window now k log
unfolding recent
recent-antitone window now now' k [] h = omega arith
recent-antitone window now now' k ((j, t) ∷ log) h =
    ground (arith, recent-antitone window now now' k log h)

-- From `last` on, no key has more grants in a window than its limit.
abbrev Bounded : (Bytes → ℕ) → ℕ → ℕ → List (Bytes × ℕ) → Type 0
Bounded limit window last log =
    (k : Bytes) (now : ℕ) → last ≤ now → recent window now k log ≤ limit k

recent-append :
    (window now : ℕ) (k j : Bytes) (t : ℕ) (log : List (Bytes × ℕ))
    → recent window now k (log ++ (j, t) ∷ [])
      ≡ recent window now k log + (if str_eq j k && ltb now (t + window) then 1 else 0)
unfolding recent
recent-append window now k j t [] = omega arith
recent-append window now k j t ((i, s) ∷ log) = omega (arith, recent-append window now k j t log)

spec_step-Bounded :
    (limit : Bytes → ℕ) (window last : ℕ) (log : List (Bytes × ℕ)) (j : Bytes) (t : ℕ)
    → Bounded limit window last log
    → last ≤ t
    → Bounded limit window t (spec_step limit window log j t).0
spec_step-Bounded limit window last log j t b h k now h' = ground (
  arith,
  b k now (omega arith),
  recent-append window now k j t log,
  recent-antitone window t now k log h',
  str_eq_iff j k,
)

-- The time of the last call
abbrev pub last_time : ℕ → List (Bytes × ℕ) → ℕ
last_time last [] = last
last_time last ((k, now) ∷ calls) = last_time now calls

-- The calls that were granted
abbrev pub granted : List (Bytes × ℕ) → List Bool → List (Bytes × ℕ)
granted (c ∷ calls) (true ∷ decisions) = c ∷ granted calls decisions
granted (c ∷ calls) (false ∷ decisions) = granted calls decisions
granted _ _ = []

spec_run-Bounded :
    (limit : Bytes → ℕ) (window last : ℕ) (log calls : List (Bytes × ℕ))
    → Bounded limit window last log
    → InOrder last calls
    → Bounded limit window (last_time last calls) (spec_run limit window log calls).0
spec_run-Bounded limit window last log [] b h = b
spec_run-Bounded limit window last log ((k, now) ∷ calls) b h =
    spec_run-Bounded limit window now (spec_step limit window log k now).0 calls
      (spec_step-Bounded limit window last log k now b h.0) h.1

spec_run-granted :
    (limit : Bytes → ℕ) (window : ℕ) (log calls : List (Bytes × ℕ))
    → (spec_run limit window log calls).0 ≡ log ++ granted calls (spec_run limit window log calls).1
spec_run-granted limit window log [] = sym (append-nil log)
spec_run-granted limit window log ((k, now) ∷ calls) =
    elim (Bool-cases (ltb (recent window now k log) (limit k))) [
      | inl e ↦ ground (
        arith,
        e,
        spec_run-granted limit window (log ++ (k, now) ∷ []) calls,
        append_assoc log ((k, now) ∷ [])
            (granted calls (spec_run limit window (log ++ (k, now) ∷ []) calls).1),
      )
      | inr e ↦ ground (arith, e, spec_run-granted limit window log calls)
    ]

-- Take any limits for the keys, any window, and any sequence of calls at times that do not go back,
-- from the empty map. At any time from the last call on, no key has been granted more calls less than
-- a window ago than its limit.
pub grants-bounded :
    (limit : Bytes → ℕ) (window : ℕ) (calls : List (Bytes × ℕ)) (k : Bytes) (now : ℕ)
    → InOrder 0 calls
    → last_time 0 calls ≤ now
    → recent window now k (granted calls (run limit window [] calls).1) ≤ limit k
unfolding recent
grants-bounded limit window calls k now h l = rw (run-refines_spec limit window calls h) (
    subst (λ log. recent window now k log ≤ limit k) (spec_run-granted limit window [] calls)
      (spec_run-Bounded limit window 0 [] calls (λ j t p. omega arith) h k now l))

-- ===== src/Proxy/RateLimiter.antt =====
-- core/go/internal/proxy/rate_limiter.go: the token bucket. `mint last now rate` stands for
-- `int64(now.Sub(last).Seconds() * float64(rate))`, where a result below 0 may be given as 0, since
-- the code treats both alike. Times are numbers; the loop of `Wait` is run over the readings of the
-- clock, one for each round.
pub mod Tokens
use air_bridge5g.Prelude.{
  ℕ, ◌+◌, ◌^◌, Bool, true, false, not, ◌||◌, List, [], ◌∷◌, ltb, leb, ◌==◌, if◌then◌else◌,
}
use air_bridge5g.Prelude.Int.{ℤ, pos, negsuc, pos_part, neg_part, sub_ℕ, ltb_ℤ, leb_ℤ}

pub record RateLimiter : Type 0 where
  pub bytes_per_sec : ℕ
  pub tokens : ℤ
  pub max_burst : ℕ
  pub last_refill : ℕ
  pub enabled : Bool

unfoldable pub new_rate_limiter : ℤ → ℕ → RateLimiter
new_rate_limiter rate now =
    if leb_ℤ rate (pos 0)
    then record {
      bytes_per_sec = 0;
      tokens = pos 0;
      max_burst = 0;
      last_refill = 0;
      enabled = false;
    }
    else record {
      bytes_per_sec = pos_part rate;
      tokens = pos (pos_part rate);
      max_burst = pos_part rate;
      last_refill = now;
      enabled = true;
    }

unfoldable pub set_rate : RateLimiter → ℤ → RateLimiter
set_rate rl rate =
    if leb_ℤ rate (pos 0)
    then record rl { enabled = false }
    else record rl { bytes_per_sec = pos_part rate; max_burst = pos_part rate; enabled = true }

-- `rl.tokens += newTokens` on an int64.
abbrev pub add_tokens : ℤ → ℕ → ℤ
add_tokens t m =
    if leb (2 ^ 63 + neg_part t) (pos_part t + m)
    then sub_ℕ (pos_part t + m) (neg_part t + 2 ^ 64)
    else sub_ℕ (pos_part t + m) (neg_part t)

module _ (mint : ℕ → ℕ → ℕ → ℕ) where
  unfoldable pub refill : ℕ → RateLimiter → RateLimiter
  refill now rl =
      let new = mint rl.last_refill now rl.bytes_per_sec in
      let sum = add_tokens rl.tokens new in
      if ltb 0 new
      then record rl {
        tokens = if ltb_ℤ (pos rl.max_burst) sum then pos rl.max_burst else sum;
        last_refill = now;
      }
      else rl

  -- One round of `Wait`'s loop, all of it under the lock; the Boolean says that the loop returns.
  unfoldable pub wait_round : ℕ → ℕ → RateLimiter → RateLimiter × Bool
  unfolding refill
  wait_round n now rl =
      let r = refill now rl in
      if leb_ℤ (pos n) r.tokens
      then (record r { tokens = sub_ℕ (pos_part r.tokens) (neg_part r.tokens + n) }, true)
      else (r, false)

  -- `Wait`; `false` means that it still waits after the last reading.
  unfoldable pub wait_loop : ℕ → List ℕ → RateLimiter → RateLimiter × Bool
  wait_loop n [] rl = (rl, false)
  wait_loop n (now ∷ clock) rl = elim (wait_round n now rl).1 [
    | true ↦ ((wait_round n now rl).0, true)
    | false ↦ wait_loop n clock (wait_round n now rl).0
  ]

  unfoldable pub wait : ℕ → List ℕ → RateLimiter → RateLimiter × Bool
  wait n clock rl = if not rl.enabled || n == 0 then (rl, true) else wait_loop n clock rl

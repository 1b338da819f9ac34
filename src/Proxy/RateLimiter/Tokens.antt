-- ===== src/Proxy/RateLimiter/Tokens.antt =====
-- What the token bucket of core/go/internal/proxy/rate_limiter.go grants.
use air_bridge5g.Prelude.{
  ℕ, ◌+◌, ◌-◌, ◌^◌, ◌≤◌, ◌<◌, ◌≡◌, refl, true, false, List, [], ◌∷◌, arith, if◌then◌else◌,
}
use air_bridge5g.Prelude.Int.{pos, pos_part, neg_part, ◌≤ℤ◌, ◌<ℤ◌}
use air_bridge5g.Proxy.RateLimiter.{
  RateLimiter, refill, wait_round, wait_loop, wait, set_rate, new_rate_limiter,
}

-- Neither the tokens at hand nor a full bucket are enough for `n` bytes.
pub record Starved (n : ℕ) (rl : RateLimiter) : Type 0 where
  pub few_tokens : rl.tokens <ℤ pos n
  pub small_bucket : rl.max_burst < n

module _ (mint : ℕ → ℕ → ℕ → ℕ) where
  refill-Starved : (n now : ℕ) (rl : RateLimiter) → Starved n rl → Starved n (refill mint now rl)
  unfolding refill
  refill-Starved n now rl h = ground arith

  wait_round-Starved :
      (n now : ℕ) (rl : RateLimiter)
      → Starved n rl
      → ((wait_round mint n now rl).1 ≡ false) × Starved n (wait_round mint n now rl).0
  unfolding wait_round
  wait_round-Starved n now rl h = ground arith

  wait_loop-Starved :
      (n : ℕ) (clock : List ℕ) (rl : RateLimiter)
      → Starved n rl
      → (wait_loop mint n clock rl).1 ≡ false
  unfolding wait_loop
  wait_loop-Starved n [] rl h = refl
  wait_loop-Starved n (now ∷ clock) rl h =
      let (e, s) = wait_round-Starved n now rl h in
      rw (e, wait_loop) (wait_loop-Starved n clock (wait_round mint n now rl).0 s)

  -- An enabled limiter that is starved of `n` bytes never lets `Wait(n)` return, whatever the clock
  -- shows and however long it runs.
  pub wait-starves :
      (n : ℕ) (clock : List ℕ) (rl : RateLimiter)
      → rl.enabled ≡ true
      → 0 < n
      → Starved n rl
      → (wait mint n clock rl).1 ≡ false
  unfolding wait
  wait-starves n clock rl on h s = ground (arith, wait_loop-Starved n clock rl s)

  -- The server's limiter, created with no limit and then given a rate, never lets through a write or
  -- read of more bytes than one second's worth.
  pub server-limit-starves :
      (rate n now : ℕ) (clock : List ℕ)
      → 0 < rate
      → rate < n
      → (wait mint n clock (set_rate (new_rate_limiter (pos 0) now) (pos rate))).1 ≡ false
  unfolding set_rate new_rate_limiter
  server-limit-starves rate n now clock h k =
      wait-starves n clock (set_rate (new_rate_limiter (pos 0) now) (pos rate)) (ground arith)
        (omega arith) (ground arith)

  -- A round after which the bucket has been filled again lets through any number of bytes that the
  -- bucket holds, and leaves the rest of it.
  pub wait_round-full :
      (n now : ℕ) (rl : RateLimiter)
      → pos 0 ≤ℤ rl.tokens
      → 0 < n
      → n ≤ rl.max_burst
      → rl.max_burst ≤ mint rl.last_refill now rl.bytes_per_sec
      → pos_part rl.tokens + mint rl.last_refill now rl.bytes_per_sec < 2 ^ 63
      → ((wait_round mint n now rl).1 ≡ true)
        × ((wait_round mint n now rl).0.tokens ≡ pos (rl.max_burst - n))
  unfolding wait_round
  wait_round-full n now rl h p k m o = ground arith

  round_spends :
      (n now : ℕ) (rl : RateLimiter)
      → let (r, passed) = wait_round mint n now rl in
        pos_part r.tokens + (if passed then n else 0) + neg_part rl.tokens
        ≤ pos_part rl.tokens + mint rl.last_refill now rl.bytes_per_sec + neg_part r.tokens
  unfolding wait_round
  round_spends n now rl = ground arith

  -- Rounds of any goroutines, in the order in which they take the lock: each is the number of bytes
  -- waited for and the reading of the clock. The result has the bytes let through and the tokens
  -- minted.
  abbrev pub rounds : List (ℕ × ℕ) → RateLimiter → RateLimiter × ℕ × ℕ
  rounds [] rl = (rl, 0, 0)
  rounds ((n, now) ∷ more) rl =
      let (r, passed) = wait_round mint n now rl in
      let (r', granted, minted) = rounds more r in
      (r', (if passed then n else 0) + granted, mint rl.last_refill now rl.bytes_per_sec + minted)

  -- Over any rounds of `Wait`, of any goroutines, the bytes let through are at most the tokens at
  -- hand at first, less those left, and those minted meanwhile, wrapping sums included.
  pub rounds-bounded :
      (rs : List (ℕ × ℕ)) (rl : RateLimiter)
      → let (r, granted, minted) = rounds rs rl in
        pos_part r.tokens + granted + neg_part rl.tokens
        ≤ pos_part rl.tokens + minted + neg_part r.tokens
  rounds-bounded [] rl = omega arith
  rounds-bounded ((n, now) ∷ more) rl =
      omega (arith, round_spends n now rl, rounds-bounded more (wait_round mint n now rl).0)

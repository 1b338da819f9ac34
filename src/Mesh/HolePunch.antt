-- ===== src/Mesh/HolePunch.antt =====
-- `HolePunch` of core/go/internal/mesh/nat_traversal.go. The sockets, the clock and the context are
-- what the calls on them answer.
use air_bridge5g.Prelude.{
  ℕ, zero, suc, ◌+◌, ◌≤◌, ◌≡◌, ◌↔◌, Bool, true, false, not, arith, if◌then◌else◌,
}
use air_bridge5g.Prelude.Result.{Result, ok, err}

pub data PunchError : Type 0 where
  resolve_peer_address listen_for_hole_punch context_done hole_punch_timeout : PunchError

-- The local socket: whether it is open, and the datagrams that were written to it.
pub record Punch : Type 0 where
  pub is_open : Bool
  pub sent : ℕ

abbrev pub rounds : ℕ
rounds = 5

-- The loop that makes the mapping, with `left` rounds to go; `done i` is whether the context is done
-- at round i. A write whose error is dropped counts as sent. The result is whether the loop ended
-- early.
unfoldable pub punch_loop : ℕ → (ℕ → Bool) → Punch → Bool × Punch
punch_loop zero done p = (false, p)
punch_loop (suc left) done p =
    let rest = punch_loop left done (record p { sent = p.sent + 1 }) in
    if done p.sent then (true, record p { is_open = false }) else rest

-- `HolePunch`; `answered` is whether a datagram comes within ten seconds.
unfoldable pub hole_punch : Bool → Bool → (ℕ → Bool) → Bool → Result PunchError Punch × Punch
hole_punch resolves listens done answered =
    let closed : Punch = record { is_open = false; sent = 0 } in
    if not resolves
    then (err resolve_peer_address, closed)
    else if not listens
    then (err listen_for_hole_punch, closed)
    else let (early, p) = punch_loop rounds done (record { is_open = true; sent = 0 }) in
      if early
      then (err context_done, p)
      else if not answered
      then (err hole_punch_timeout, record p { is_open = false })
      else (ok p, p)

punch_loop-ends :
    (left : ℕ) (done : ℕ → Bool) (p : Punch)
    → let (early, p') = punch_loop left done p in
      (p'.is_open ≡ (if early then false else p.is_open))
      × (p'.sent ≤ p.sent + left)
      × (early ≡ false → p'.sent ≡ p.sent + left)
unfolding punch_loop
punch_loop-ends zero done p = ground arith
punch_loop-ends (suc left) done p =
    ground (arith, punch_loop-ends left done (record p { sent = p.sent + 1 }))

-- `HolePunch` closes its socket on every error and hands it out open otherwise; it writes at most
-- five datagrams, and five before it waits for an answer.
pub hole_punch-closes :
    (resolves listens : Bool) (done : ℕ → Bool) (answered : Bool)
    → let (r, p) = hole_punch resolves listens done answered in
      ((p.is_open ≡ true) ↔ (r ≡ ok p))
      × (p.sent ≤ rounds)
      × (r ≡ err hole_punch_timeout → p.sent ≡ rounds)
      × (r ≡ ok p → p.sent ≡ rounds)
unfolding hole_punch
hole_punch-closes resolves listens done answered =
    let l = punch_loop-ends rounds done (record { is_open = true; sent = 0 }) in
    (ground (arith, l), ground (arith, l), ground (arith, l), ground (arith, l))

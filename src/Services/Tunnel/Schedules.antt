-- ===== src/Services/Tunnel/Schedules.antt =====
-- The schedules of `StartTunnel` in core/go/internal/services/daemon.go and its goroutine.
use air_bridge5g.Prelude.{◌≡◌, refl, subst, ◌≢◌, Bool, true, false, arith}
use air_bridge5g.Services.Tunnel.{
  Tunnel, tunnel_degraded, Starter, waiting, bind_failed, started, marked, entered,
  return_bind_error, finish_start, serve_fails, serve_returns, mark_degraded, send_bind_error, Step,
  select_error, select_timeout, fails, returns, marks, sends, Steps, stay, next,
}

-- While `StartTunnel` waits it holds the mutex, so the goroutine is not past it and the channel is
-- empty; it never returns the error.
abbrev IsHeld : Starter → Tunnel → Type 0
IsHeld waiting s = (s.locked ≡ true) × (s.bind_err ≡ false) × (s.listener ≢ marked)
IsHeld bind_failed s = ⊥
IsHeld started s = s.locked ≡ false

Step-IsHeld : {s t : Tunnel} → Step s t → IsHeld s.starter s → IsHeld t.starter t
unfolding return_bind_error finish_start serve_fails serve_returns mark_degraded send_bind_error
Step-IsHeld (select_error p e) v = ground arith
Step-IsHeld (select_timeout b p) v = ground arith
Step-IsHeld (fails p) v = ground arith
Step-IsHeld (returns p) v = ground arith
Step-IsHeld (marks p l) v = ground arith
Step-IsHeld (sends p) v = ground arith

Steps-IsHeld : {s t : Tunnel} → Steps s t → IsHeld s.starter s → IsHeld t.starter t
Steps-IsHeld stay v = v
Steps-IsHeld (next r q) v = Step-IsHeld q (Steps-IsHeld r v)

entered-IsHeld : (armed : Bool) → IsHeld waiting (entered armed)
entered-IsHeld armed = (refl, refl, λ e. cc)

-- On no schedule does `StartTunnel` return "socks5 bind failed", whether the proxy's listen fails or
-- not: the goroutine has to take the mutex that `StartTunnel` holds before it can send the error.
pub bind_error-unreachable :
    (armed : Bool) (s : Tunnel) → Steps (entered armed) s → s.starter ≢ bind_failed
bind_error-unreachable armed s r e =
    subst (λ p. IsHeld p s) e (Steps-IsHeld r (entered-IsHeld armed))

-- There is a schedule on which the listen fails at once, and yet `StartTunnel` returns nil with the
-- kill switch enabled, after which the state is degraded.
pub bind_error-hidden :
    (s : Tunnel) × Steps (entered false) s
    × (s.starter ≡ started)
    × (s.armed ≡ true)
    × (s.tunnel_state ≡ tunnel_degraded)
    × (s.bind_err ≡ true)
unfolding finish_start serve_fails mark_degraded send_bind_error
bind_error-hidden = (
  _,
  next (next (next (next stay (fails refl)) (select_timeout true refl)) (marks refl refl))
      (sends refl),
  refl,
  refl,
  refl,
  refl,
)

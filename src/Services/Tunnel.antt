-- ===== src/Services/Tunnel.antt =====
-- core/go/internal/services/daemon.go: `StartTunnel` on a master with a proxy, its goroutine that runs
use air_bridge5g.Prelude.{◌≡◌, Bool, true, false, ◌||◌}
-- the proxy, and the mutex `d.mu` that both take.
pub mod Schedules

pub data TunnelState : Type 0 where
  tunnel_stopped tunnel_starting tunnel_running tunnel_degraded : TunnelState

-- Where `StartTunnel` stands: in its `select`, or returned, with "socks5 bind failed" or with nil.
pub data Starter : Type 0 where
  waiting bind_failed started : Starter

-- Where the goroutine stands: in `ListenAndServe`, at `d.mu.Lock()` with the error, behind
-- `d.mu.Unlock()`, or at its end.
pub data Listener : Type 0 where
  serving has_error marked ended : Listener

pub record Tunnel : Type 0 where
  pub tunnel_state : TunnelState
  pub starter : Starter
  pub listener : Listener
  -- `d.mu` is held by `StartTunnel`.
  pub locked : Bool
  -- The channel `bindErrCh` holds an error.
  pub bind_err : Bool
  -- The kill switch is enabled.
  pub armed : Bool

-- `StartTunnel` at its `select`.
abbrev pub entered : Bool → Tunnel
entered armed = record {
  tunnel_state = tunnel_starting;
  starter = waiting;
  listener = serving;
  locked = true;
  bind_err = false;
  armed = armed;
}

unfoldable pub return_bind_error : Tunnel → Tunnel
return_bind_error s = record s { starter = bind_failed; locked = false; bind_err = false }

-- The time of 100 ms is over; `enabled` is whether the kill switch is there and its `Enable`
-- succeeds.
unfoldable pub finish_start : Bool → Tunnel → Tunnel
finish_start enabled s = record s {
  armed = s.armed || enabled;
  tunnel_state = tunnel_running;
  starter = started;
  locked = false;
}

unfoldable pub serve_fails : Tunnel → Tunnel
serve_fails s = record s { listener = has_error }

unfoldable pub serve_returns : Tunnel → Tunnel
serve_returns s = record s { listener = ended }

unfoldable pub mark_degraded : Tunnel → Tunnel
mark_degraded s = record s { tunnel_state = tunnel_degraded; listener = marked }

unfoldable pub send_bind_error : Tunnel → Tunnel
send_bind_error s = record s { bind_err = true; listener = ended }

pub data Step : Tunnel → Tunnel → Type 0 where
  select_error :
      {s : Tunnel} → s.starter ≡ waiting → s.bind_err ≡ true → Step s (return_bind_error s)
  select_timeout :
      {s : Tunnel} (enabled : Bool) → s.starter ≡ waiting → Step s (finish_start enabled s)
  fails : {s : Tunnel} → s.listener ≡ serving → Step s (serve_fails s)
  returns : {s : Tunnel} → s.listener ≡ serving → Step s (serve_returns s)
  marks : {s : Tunnel} → s.listener ≡ has_error → s.locked ≡ false → Step s (mark_degraded s)
  sends : {s : Tunnel} → s.listener ≡ marked → Step s (send_bind_error s)

pub data Steps : Tunnel → Tunnel → Type 0 where
  stay : {s : Tunnel} → Steps s s
  next : {s t u : Tunnel} → Steps s t → Step t u → Steps s u

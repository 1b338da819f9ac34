-- ===== src/Proxy/Server.antt =====
-- core/go/internal/proxy/socks5.go: the configuration of the server, and the loop that accepts
-- connections, whose handlers run and end beside it.
pub mod Connections
use air_bridge5g.Prelude.{
  ℕ, ◌+◌, ◌-◌, ◌^◌, ◌<◌, ◌≡◌, Bool, true, false, ◌&&◌, ltb, leb, if◌then◌else◌,
}
use air_bridge5g.Prelude.Int.{ℤ, pos, leb_ℤ, add64, dec64}

pub record ServerConfig : Type 0 where
  pub max_connections : ℤ
  pub dial_timeout : ℤ
  pub relay_buf_size : ℤ
  pub doh_enabled : Bool
  pub kill_switch_enabled : Bool

-- The start of `NewServer`; times are nanoseconds.
unfoldable pub new_server : ServerConfig → ServerConfig
new_server cfg = record cfg {
  max_connections = if leb_ℤ cfg.max_connections (pos 0) then pos 256 else cfg.max_connections;
  dial_timeout = if leb_ℤ cfg.dial_timeout (pos 0) then pos 30_000_000_000 else cfg.dial_timeout;
  relay_buf_size = if leb_ℤ cfg.relay_buf_size (pos 0) then pos 32_768 else cfg.relay_buf_size;
}

unfoldable pub update_privacy_config : Bool → Bool → ServerConfig → ServerConfig
update_privacy_config doh kill_switch cfg = record cfg {
  doh_enabled = doh;
  kill_switch_enabled = kill_switch;
}

-- Where the loop stands: in `Accept`, past the test of the limit, or behind the loop.
pub data Phase : Type 0 where
  accepting admitted stopped : Phase

-- The counters, the handlers that run, those that are between the two calls that they defer, and the
-- limit. The wait group counts both.
pub record Server : Type 0 where
  pub phase : Phase
  pub active_connections : ℕ
  pub total_connections : ℕ
  pub connection_errors : ℕ
  pub handlers : ℕ
  pub ending : ℕ
  pub max_connections : ℕ

-- `s.metrics.ActiveConnections.Load() >= int64(s.cfg.MaxConnections)`
unfoldable pub is_full : Server → Bool
is_full s = ltb s.active_connections (2 ^ 63) && leb s.max_connections s.active_connections

unfoldable pub count_error : Server → Server
count_error s = record s { connection_errors = add64 s.connection_errors 1 }

unfoldable pub start_handler : Server → Server
start_handler s = record s {
  phase = accepting;
  total_connections = add64 s.total_connections 1;
  active_connections = add64 s.active_connections 1;
  handlers = s.handlers + 1;
}

-- The deferred `ActiveConnections.Add(-1)`
unfoldable pub end_handler : Server → Server
end_handler s = record s {
  active_connections = dec64 s.active_connections;
  handlers = s.handlers - 1;
  ending = s.ending + 1;
}

-- The deferred `wg.Done()`, which comes behind it.
unfoldable pub leave_group : Server → Server
leave_group s = record s { ending = s.ending - 1 }

unfoldable pub go_to : Phase → Server → Server
go_to p s = record s { phase = p }

-- One step of the loop or of a handler: they interleave at the loads and additions of the counters.
pub data Step : Server → Server → Type 0 where
  accept_error : {s : Server} → s.phase ≡ accepting → Step s (count_error s)
  shut_down : {s : Server} → s.phase ≡ accepting → Step s (go_to stopped s)
  refuse : {s : Server} → s.phase ≡ accepting → is_full s ≡ true → Step s (count_error s)
  admit : {s : Server} → s.phase ≡ accepting → is_full s ≡ false → Step s (go_to admitted s)
  start : {s : Server} → s.phase ≡ admitted → Step s (start_handler s)
  finish : {s : Server} → 0 < s.handlers → Step s (end_handler s)
  leave : {s : Server} → 0 < s.ending → Step s (leave_group s)

pub data Steps : Server → Server → Type 0 where
  stay : {s : Server} → Steps s s
  next : {s t u : Server} → Steps s t → Step t u → Steps s u

-- `ListenAndServe` has returned: the loop has ended and `wg.Wait` holds nothing back.
abbrev pub HasReturned : Server → Type 0
HasReturned s = (s.phase ≡ stopped) × (s.handlers + s.ending ≡ 0)

abbrev pub initial : ℕ → Server
initial limit = record {
  phase = accepting;
  active_connections = 0;
  total_connections = 0;
  connection_errors = 0;
  handlers = 0;
  ending = 0;
  max_connections = limit;
}

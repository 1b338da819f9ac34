-- ===== src/Services/Daemon.antt =====
-- core/go/internal/services/daemon.go and control.go: the daemon's state and the operations on it
-- that take its mutex; what they call in the proxy, the privacy engine and the kill switch is named
-- by what it leaves behind.
pub mod History
pub mod Reload
use air_bridge5g.Prelude.{
  ℕ, ◌+◌, ◌==◌, ◌-◌, ◌*◌, Bool, true, false, not, ◌&&◌, ◌||◌, Option, none, some, List, [], ◌∷◌,
  ◌++◌, Bytes, codes, ltb, leb, if◌then◌else◌, length, drop,
}
use air_bridge5g.Prelude.Int.{ℤ, pos, ltb_ℤ}
use air_bridge5g.Prelude.Map.{str_eq}
use air_bridge5g.Proxy.Socks5.{Tokens}
use air_bridge5g.Proxy.Server.{ServerConfig, new_server}
use air_bridge5g.Proxy.RateLimiter.{RateLimiter, new_rate_limiter}
use air_bridge5g.Services.Tunnel.{
  TunnelState, tunnel_stopped, tunnel_starting, tunnel_running, tunnel_degraded,
}

pub data NodeRole : Type 0 where
  role_unspecified role_master role_client : NodeRole

pub record DaemonConfig : Type 0 where
  pub node_id : Bytes
  pub grpc_address : Bytes
  pub proxy_address : Bytes
  pub quic_port : ℤ

-- What `proxy.NewServer` is given and makes. The engine's parts are the daemon's own, and are left
-- out.
pub record ProxyServer : Type 0 where
  pub bind_address : Bytes
  pub has_tls : Bool
  pub auth : Option Tokens
  pub config : ServerConfig
  pub limiter : RateLimiter

pub record Daemon : Type 0 where
  pub cfg : DaemonConfig
  pub role : NodeRole
  pub tunnel_state : TunnelState
  -- `none` where there is no server.
  pub proxy_server : Option ProxyServer
  -- Whether the kill switch is enabled; `none` where there is none.
  pub kill_switch : Option Bool
  -- How many goroutines of `StartTunnel` are in `ListenAndServe`, or at `d.mu.Lock()` behind it.
  pub listeners : ℕ

unfoldable pub set_role : NodeRole → Daemon → Daemon
set_role role d = record d { role = role }

-- The configuration after `UpdateDaemonConfig`, and whether the proxy is to be made anew.
unfoldable pub update_cfg : DaemonConfig → DaemonConfig → DaemonConfig × Bool
update_cfg new old =
    let restart_proxy =
      not (str_eq new.proxy_address []) && not (str_eq old.proxy_address new.proxy_address) in
    (
      record {
        node_id = if str_eq new.node_id [] then old.node_id else new.node_id;
        grpc_address = if str_eq new.grpc_address [] then old.grpc_address else new.grpc_address;
        proxy_address = if restart_proxy then new.proxy_address else old.proxy_address;
        quic_port = if ltb_ℤ (pos 0) new.quic_port then new.quic_port else old.quic_port;
      },
      restart_proxy,
    )

-- The server that `UpdateDaemonConfig` makes in place of the old one.
unfoldable pub reloaded_proxy : Bytes → ProxyServer
reloaded_proxy address = record {
  bind_address = address;
  has_tls = false;
  auth = none;
  config = new_server (record {
    max_connections = pos 1000;
    dial_timeout = pos 10_000_000_000;
    relay_buf_size = pos 32_768;
    doh_enabled = false;
    kill_switch_enabled = false;
  });
  limiter = new_rate_limiter (pos 0) 0;
}

-- `UpdateDaemonConfig`, and whether it restarts the tunnel in the background.
unfoldable pub update_daemon_config : DaemonConfig → Daemon → Daemon × Bool
update_daemon_config new d =
    let (cfg, restart_proxy) = update_cfg new d.cfg in
    elim d.proxy_server [
      | none ↦ (record d { cfg = cfg }, false)
      | some _ ↦
          if restart_proxy
          then (
            record d { cfg = cfg; proxy_server = some (reloaded_proxy cfg.proxy_address) },
            elim d.tunnel_state [ tunnel_running ↦ true | _ ↦ false ],
          )
          else (record d { cfg = cfg }, false)
    ]

-- The goroutines behind a start, which has one for the proxy of a master.
unfoldable pub listening : Daemon → ℕ
listening d = elim d.role [
  | role_master ↦ elim d.proxy_server [ none ↦ d.listeners | some p ↦ d.listeners + 1 ]
  | _ ↦ d.listeners
]

-- `StartTunnel` as it returns nil, which Services/Tunnel shows to be all it does; `enabled` is
-- whether the kill switch's `Enable` succeeds. It holds `d.mu`, so that what its goroutine does with
-- the state comes behind it: `listener_fails`.
unfoldable pub start_tunnel : Bool → Daemon → Daemon
start_tunnel enabled d = elim d.tunnel_state [
  | tunnel_running ↦ d
  | other ↦ record d {
    kill_switch = elim d.kill_switch [ none ↦ none | some on ↦ some (on || enabled) ];
    tunnel_state = tunnel_running;
    listeners = listening d;
  }
]

-- The locked section of a goroutine of `StartTunnel` whose `ListenAndServe` has returned an error.
unfoldable pub listener_fails : Daemon → Daemon
listener_fails d =
    if d.listeners == 0
    then d
    else record d { tunnel_state = tunnel_degraded; listeners = d.listeners - 1 }

-- One whose `ListenAndServe` has returned nil.
unfoldable pub listener_returns : Daemon → Daemon
listener_returns d = record d { listeners = d.listeners - 1 }

-- `StopTunnel`; `disabled` is whether the kill switch's `Disable` succeeds.
unfoldable pub stop_tunnel : Bool → Daemon → Daemon
stop_tunnel disabled d = record d {
  kill_switch = elim d.kill_switch [ none ↦ none | some on ↦ some (on && not disabled) ];
  tunnel_state = tunnel_stopped;
}

-- What `currentTrafficSnapshot` reads.
pub record Reading : Type 0 where
  pub bytes_in : ℕ
  pub bytes_out : ℕ
  pub active_connections : ℕ
  pub total_connections : ℕ
  pub packets_processed : ℕ

-- `TrafficSnapshot`: a reading, with the bits and the nanoseconds whose quotients are the
-- throughputs.
pub record Snapshot : Type 0 where
  pub reading : Reading
  pub bits_in : ℕ
  pub bits_out : ℕ
  pub elapsed : ℕ

-- What `collectTrafficStats` keeps between two ticks.
pub record Collector : Type 0 where
  pub prev_in : ℕ
  pub prev_out : ℕ
  pub prev_time : ℕ
  pub traffic_history : List Snapshot

abbrev pub max_history : ℕ
max_history = 60

unfoldable pub push_history : {A : Type 0} → ℕ → List A → A → List A
push_history limit history x =
    let longer = history ++ x ∷ [] in
    if ltb limit (length longer) then drop (length longer - limit) longer else longer

-- One tick at the time `now` with this reading. A difference below 0 counts as 0, and time that does
-- not go on counts as one second.
unfoldable pub tick : Reading → ℕ → Collector → Collector
tick r now c =
    let snapshot : Snapshot = record {
      reading = r;
      bits_in = (r.bytes_in - c.prev_in) * 8;
      bits_out = (r.bytes_out - c.prev_out) * 8;
      elapsed = if leb now c.prev_time then 1_000_000_000 else now - c.prev_time;
    } in
    record {
      prev_in = r.bytes_in;
      prev_out = r.bytes_out;
      prev_time = now;
      traffic_history = push_history max_history c.traffic_history snapshot;
    }

-- `GetTrafficSnapshot`: `current` is what `currentTrafficSnapshot` reads.
unfoldable pub latest : Snapshot → List Snapshot → Snapshot
latest current [] = current
latest current (s ∷ []) = s
latest current (s ∷ t ∷ history) = latest current (t ∷ history)

unfoldable pub get_traffic_snapshot : Snapshot → Collector → Snapshot
get_traffic_snapshot current c = latest current c.traffic_history

-- `DefaultDaemonConfig`
abbrev pub default_daemon_config : DaemonConfig
default_daemon_config = record {
  node_id = codes "airbridge-node";
  grpc_address = codes "127.0.0.1:50051";
  proxy_address = codes "127.0.0.1:1080";
  quic_port = pos 4433;
}

-- `NewDaemon`
unfoldable pub new_daemon : DaemonConfig → Option ProxyServer → Option Bool → Daemon
new_daemon cfg proxy_server kill_switch = record {
  cfg = cfg;
  role = role_unspecified;
  tunnel_state = tunnel_stopped;
  proxy_server = proxy_server;
  kill_switch = kill_switch;
  listeners = 0;
}

-- The proxy that main.go starts with: its authenticator has no tokens.
abbrev pub main_proxy : ProxyServer
main_proxy = record {
  bind_address = codes "127.0.0.1:1080";
  has_tls = false;
  auth = some [];
  config = new_server (record {
    max_connections = pos 256;
    dial_timeout = pos 30_000_000_000;
    relay_buf_size = pos 32_768;
    doh_enabled = false;
    kill_switch_enabled = false;
  });
  limiter = new_rate_limiter (pos 0) 0;
}

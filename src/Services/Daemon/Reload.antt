-- ===== src/Services/Daemon/Reload.antt =====
-- The configuration that core/go/internal/services/daemon.go updates while it runs, and the start of
-- the tunnel.
use air_bridge5g.Prelude.{
  ℕ, ◌≡◌, refl, ◌≢◌, ◌↔◌, ◌⊎◌, inl, inr, Bool, true, false, Option, none, some, [], arith, Bytes,
  if◌then◌else◌, Option-cases,
}
use air_bridge5g.Prelude.Int.{pos, ltb_ℤ}
use air_bridge5g.Prelude.Map.{str_eq}
use air_bridge5g.Proxy.RateLimiter.{new_rate_limiter}
use air_bridge5g.Prelude.Map.{lookup}
use air_bridge5g.Proxy.Socks5.{Conn, Ip, handle_connection, validate_token}
use air_bridge5g.Proxy.Socks5.Authentication.{handle_connection-Authenticated}
use air_bridge5g.Services.Tunnel.{tunnel_stopped, tunnel_running}
use air_bridge5g.Services.Daemon.{
  DaemonConfig, ProxyServer, Daemon, main_proxy, update_cfg, reloaded_proxy, update_daemon_config,
  start_tunnel, stop_tunnel,
}

-- A new proxy address that is not empty and not the present one replaces the proxy: the new server
-- is bound to that address and has neither an authenticator nor TLS, whatever the old one had, and
-- its limit of the bandwidth is off. The tunnel is restarted in the background exactly when it
-- was running, and role, state and kill switch stay as they are.
pub update_daemon_config-reloads :
    (new : DaemonConfig) (d : Daemon) (p : ProxyServer)
    → d.proxy_server ≡ some p
    → str_eq new.proxy_address [] ≡ false
    → str_eq d.cfg.proxy_address new.proxy_address ≡ false
    → let (d', restarts) = update_daemon_config new d in
      ((p' : ProxyServer) × (d'.proxy_server ≡ some p')
        × (p'.bind_address ≡ new.proxy_address)
        × (p'.auth ≡ none)
        × (p'.has_tls ≡ false)
        × (p'.limiter.enabled ≡ false))
      × (d'.cfg.proxy_address ≡ new.proxy_address)
      × (d'.role ≡ d.role)
      × (d'.tunnel_state ≡ d.tunnel_state)
      × (d'.kill_switch ≡ d.kill_switch)
      × ((restarts ≡ true) ↔ (d.tunnel_state ≡ tunnel_running))
unfolding update_daemon_config update_cfg reloaded_proxy new_rate_limiter
update_daemon_config-reloads new d p h ne ch = (
  (reloaded_proxy new.proxy_address, ground arith, refl, refl, refl, refl),
  ground arith,
  ground arith,
  ground arith,
  ground arith,
  ground arith,
)

-- A field of a new configuration that is empty, or a QUIC port that is not positive, leaves the
-- present value, and any other value is taken; and without a proxy nothing else changes.
pub update_daemon_config-fields :
    (new : DaemonConfig) (d : Daemon)
    → let (d', restarts) = update_daemon_config new d in
      (d'.cfg.node_id ≡ (if str_eq new.node_id [] then d.cfg.node_id else new.node_id))
      × (d'.cfg.grpc_address
          ≡ (if str_eq new.grpc_address [] then d.cfg.grpc_address else new.grpc_address))
      × (d'.cfg.quic_port
          ≡ (if ltb_ℤ (pos 0) new.quic_port then new.quic_port else d.cfg.quic_port))
      × (d.proxy_server ≡ none → (d' ≡ record d { cfg = d'.cfg }) × (restarts ≡ false))
unfolding update_daemon_config update_cfg
update_daemon_config-fields new d = (ground arith, ground arith, ground arith, λ e. ground arith)

-- A start of a tunnel that is not running reports it as running whether or not the kill switch could
-- be enabled: when `Enable` fails, a kill switch that was off stays off. A start of a running tunnel
-- changes nothing, and a stop leaves it stopped with the kill switch off exactly when it was off or
-- `Disable` succeeds.
pub start_tunnel-fails_open :
    (enabled disabled : Bool) (d : Daemon)
    → (d.tunnel_state ≢ tunnel_running
        → d.kill_switch ≡ some false
        → ((start_tunnel enabled d).tunnel_state ≡ tunnel_running)
          × ((start_tunnel enabled d).kill_switch ≡ some enabled))
      × (start_tunnel enabled (start_tunnel disabled d) ≡ start_tunnel disabled d)
      × ((stop_tunnel disabled d).tunnel_state ≡ tunnel_stopped)
      × ((stop_tunnel disabled d).kill_switch ≡ some false
          ↔ (d.kill_switch ≡ some false ⊎ ((d.kill_switch ≡ some true) × (disabled ≡ true))))
unfolding start_tunnel stop_tunnel
start_tunnel-fails_open enabled disabled d = (ground arith, ground arith, refl, ground arith)

-- The authenticator that a connection of a proxy asks.
abbrev pub validator : ProxyServer → Option (Bytes → Bytes → Bool)
validator p = elim p.auth [ none ↦ none | some tokens ↦ some (validate_token tokens) ]

no_tokens : (username password : Bytes) → validate_token [] username password ≡ false
unfolding validate_token lookup
no_tokens username password = refl

-- The proxy that the program starts with relays nothing for anyone, whatever a client sends: its
-- authenticator has no tokens, and so accepts no credentials.
pub main_proxy-refuses :
    {W E : Type 0} (write : W → Bytes → W × ℕ × Option E) (ip_string : Bytes → Bytes)
    (dial : Bytes → Option (Ip × ℕ)) (c : Conn W)
    → (handle_connection write ip_string dial (validator main_proxy) c).0 ≡ none
main_proxy-refuses write ip_string dial c =
    elim (Option-cases (handle_connection write ip_string dial (validator main_proxy) c).0) [
      | inl e ↦ e
      | inr (dest, e) ↦
          let (front, input, rest, uname, passwd, a, v, p) =
            handle_connection-Authenticated write ip_string dial (validate_token []) c
              (handle_connection write ip_string dial (validator main_proxy) c).1 dest
              (λ i. (e i, (handle_connection write ip_string dial (validator main_proxy) c).1)) in
          absurd (ground (arith, v, no_tokens uname passwd))
    ]

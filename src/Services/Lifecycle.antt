-- ===== src/Services/Lifecycle.antt =====
-- core/go/internal/services/daemon.go: `Start`, `Stop` and `Status` of the daemon with its mesh; and
-- core/go/cmd/securemesh-node/main.go: the reload on SIGHUP, and the calls that `main` defers.
pub mod Exit
use air_bridge5g.Prelude.{
  ℕ, Bool, true, false, not, ◌&&◌, Option, none, some, List, [], ◌∷◌, map, Bytes, codes, length,
}
use air_bridge5g.Prelude.Result.{Result}
use air_bridge5g.Prelude.Int.{pos}
use air_bridge5g.Config.{Environment, getenv, load_from_env}
use air_bridge5g.Mesh.LibP2p.{LibP2pService, start, stop, list_connected_peers}
use air_bridge5g.Services.Tunnel.{TunnelState, tunnel_stopped}
use air_bridge5g.Services.Daemon.{
  DaemonConfig, Daemon, update_daemon_config, start_tunnel, stop_tunnel, listener_fails,
  listener_returns,
}
use air_bridge5g.Services.Handlers.{Request, serve}
use air_bridge5g.Services.Pairing.{QrCredentials, PairingError, import_qr_credentials}
use mathlib.Core.Option

-- The daemon with what it starts and stops; `cancelled` is whether the daemon's context is, and
-- `none` before there is one.
pub record Node : Type 0 where
  pub daemon : Daemon
  pub mesh : Option LibP2pService
  pub cancelled : Option Bool

-- `Daemon.Start`; the mesh's `Start` returns no error.
unfoldable pub start_node : Node → Node
start_node n = record n { mesh = Option.map start n.mesh; cancelled = some false }

-- The first locked section of `Stop`.
unfoldable pub cancel : Node → Node
cancel n = record n { cancelled = elim n.cancelled [ none ↦ none | some b ↦ some true ] }

-- `mesh.Stop`, whose error is only logged; `waited` is whether its goroutines end in time.
unfoldable pub stop_mesh : Bool → Node → Node
stop_mesh waited n = record n { mesh = Option.map (λ s. (stop waited s).1) n.mesh }

-- The last locked section of `Stop`.
unfoldable pub end_stop : Node → Node
end_stop n = record n { daemon = record n.daemon { tunnel_state = tunnel_stopped } }

-- `Daemon.Stop` with nothing else between its sections. The proxy's `Shutdown`, whose error is only
-- logged, ends the accept loop of Proxy/Server and leaves nothing in the node.
unfoldable pub stop_node : Bool → Node → Node
stop_node waited n = end_stop (stop_mesh waited (cancel n))

-- `NodeStatus`, less the time of the start.
pub record NodeStatus : Type 0 where
  pub node_id : Bytes
  pub tunnel_state : TunnelState
  pub connected_peer : ℕ

-- `Daemon.Status`
unfoldable pub status : Node → NodeStatus
status n = record {
  node_id = n.daemon.cfg.node_id;
  tunnel_state = n.daemon.tunnel_state;
  connected_peer = elim n.mesh [ none ↦ 0 | some s ↦ length (list_connected_peers s) ];
}

-- The configuration that a SIGHUP makes of the environment.
unfoldable pub reloaded_config : Environment → DaemonConfig
reloaded_config vars = record {
  node_id = (load_from_env vars).node_id;
  grpc_address = getenv vars (codes "SECUREMESH_GRPC_ADDR");
  proxy_address = getenv vars (codes "SECUREMESH_PROXY_ADDR");
  quic_port = pos 0;
}

unfoldable pub reload : Environment → Daemon → Daemon × Bool
reload vars d = update_daemon_config (reloaded_config vars) d

-- The goroutine of `UpdateDaemonConfig` that restarts the tunnel.
unfoldable pub restart_tunnel : Bool → Bool → Daemon → Daemon
restart_tunnel disabled enabled d = start_tunnel enabled (stop_tunnel disabled d)

-- What happens to a node that runs: a call of the control plane, a SIGHUP, the restart of the tunnel
-- behind one, an import of credentials, and the end of a `ListenAndServe` with an error or with nil.
pub data Action : Type 0 where
  serves : Request → Action
  reloads : Environment → Action
  restarts : Bool → Bool → Action
  imports : (ℕ → Bytes → Bool) → (ℕ → Bool) → ℕ → ℕ → Result PairingError QrCredentials → Action
  proxy_fails proxy_returns : Action

unfoldable pub with_daemon : Daemon → Node → Node
with_daemon d n = record n { daemon = d }

unfoldable pub act : Action → Node → Node
act (serves r) n = with_daemon (serve r n.daemon) n
act (reloads vars) n = with_daemon (reload vars n.daemon).0 n
act (restarts disabled enabled) n = with_daemon (restart_tunnel disabled enabled n.daemon) n
act (imports dial upgrade now seen creds) n = record n {
  mesh = (import_qr_credentials dial upgrade now seen creds n.mesh).1;
}
act proxy_fails n = with_daemon (listener_fails n.daemon) n
act proxy_returns n = with_daemon (listener_returns n.daemon) n

unfoldable pub act_all : List Action → Node → Node
act_all [] n = n
act_all (a ∷ actions) n = act_all actions (act a n)

-- `killSwitch.Disable`, the last of the deferred calls that changes the node.
unfoldable pub release : Bool → Daemon → Daemon
release disabled d = record d {
  kill_switch = elim d.kill_switch [ none ↦ none | some on ↦ some (on && not disabled) ];
}

-- The end of `main`, behind the end of the last call of the control plane.
unfoldable pub exit_main : Bool → Bool → Node → Node
exit_main waited disabled n =
    let stopped = stop_node waited n in with_daemon (release disabled stopped.daemon) stopped

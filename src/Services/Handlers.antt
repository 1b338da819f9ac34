-- ===== src/Services/Handlers.antt =====
-- core/go/internal/services/grpc_server.go: the handlers of the control plane over the daemon. An
-- enumeration of the protocol is an int32, which is open: any number can arrive.
pub mod Replies
use air_bridge5g.Prelude.{
  ℕ, ◌+◌, ◌-◌, ◌%◌, ◌^◌, Bool, Option, none, some, List, [], ◌∷◌, Bytes, ◌==◌, if◌then◌else◌,
  length,
}
use air_bridge5g.Prelude.Int.{ℤ, pos, negsuc}
use air_bridge5g.Services.Tunnel.{
  TunnelState, tunnel_stopped, tunnel_starting, tunnel_running, tunnel_degraded,
}
use air_bridge5g.Services.Daemon.{
  NodeRole, role_unspecified, role_master, role_client, Daemon, set_role, start_tunnel, stop_tunnel,
}
use air_bridge5g.Mesh.LibP2p.{LibP2pService, list_connected_peers}

unfoldable pub map_tunnel_state : TunnelState → ℤ
map_tunnel_state tunnel_stopped = pos 1
map_tunnel_state tunnel_starting = pos 2
map_tunnel_state tunnel_running = pos 3
map_tunnel_state tunnel_degraded = pos 4

unfoldable pub map_node_role : NodeRole → ℤ
map_node_role role_master = pos 1
map_node_role role_client = pos 2
map_node_role role_unspecified = pos 0

unfoldable pub map_proto_role : ℤ → NodeRole
map_proto_role (pos n) =
    if n == 1 then role_master else (if n == 2 then role_client else role_unspecified)
map_proto_role (negsuc n) = role_unspecified

-- `uint32(n)` of an int
unfoldable pub to_uint32 : ℤ → ℕ
to_uint32 (pos n) = n % 2 ^ 32
to_uint32 (negsuc n) = (2 ^ 32 - (n + 1) % 2 ^ 32) % 2 ^ 32

pub record StatusResponse : Type 0 where
  pub node_id : Bytes
  pub tunnel_state : ℤ
  pub role : ℤ
  pub connected_peers : ℕ

-- `GetStatus` with `Daemon.Status`, less the times, the version and the platform.
unfoldable pub get_status : Option LibP2pService → Daemon → StatusResponse
get_status mesh d = record {
  node_id = d.cfg.node_id;
  tunnel_state = map_tunnel_state d.tunnel_state;
  role = map_node_role d.role;
  connected_peers = elim mesh [
    | none ↦ 0
    | some s ↦ to_uint32 (pos (length (list_connected_peers s)))
  ];
}

pub record StartTunnelResponse : Type 0 where
  pub state : ℤ
  pub proxy_address : Bytes
  pub quic_port : ℕ

-- `StartTunnel`
unfoldable pub handle_start_tunnel : Bool → ℤ → Daemon → StartTunnelResponse × Daemon
handle_start_tunnel enabled role d =
    let d' = start_tunnel enabled (set_role (map_proto_role role) d) in
    (
      record {
        state = map_tunnel_state d'.tunnel_state;
        proxy_address = d'.cfg.proxy_address;
        quic_port = to_uint32 d'.cfg.quic_port;
      },
      d',
    )

-- `StopTunnel`
unfoldable pub handle_stop_tunnel : Bool → Daemon → ℤ × Daemon
handle_stop_tunnel disabled d =
    let d' = stop_tunnel disabled d in (map_tunnel_state d'.tunnel_state, d')

-- `SetRole`: the role and the state that are answered.
unfoldable pub handle_set_role : ℤ → Daemon → (ℤ × ℤ) × Daemon
handle_set_role role d =
    let d' = set_role (map_proto_role role) d in ((role, map_tunnel_state d'.tunnel_state), d')

-- `GetRole`
unfoldable pub handle_get_role : Daemon → ℤ
handle_get_role d = map_node_role d.role

-- The calls of the control plane that change or show the role and the state, with what the kill
-- switch does.
pub data Request : Type 0 where
  start_request : Bool → ℤ → Request
  stop_request : Bool → Request
  set_role_request : ℤ → Request

unfoldable pub serve : Request → Daemon → Daemon
unfolding handle_start_tunnel handle_stop_tunnel handle_set_role
serve (start_request enabled role) d = (handle_start_tunnel enabled role d).1
serve (stop_request disabled) d = (handle_stop_tunnel disabled d).1
serve (set_role_request role) d = (handle_set_role role d).1

unfoldable pub serve_all : List Request → Daemon → Daemon
serve_all [] d = d
serve_all (r ∷ rs) d = serve_all rs (serve r d)

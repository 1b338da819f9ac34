-- ===== src/Services/Handlers/Replies.antt =====
-- What the control plane of core/go/internal/services/grpc_server.go answers.
use air_bridge5g.Prelude.{
  ◌≡◌, refl, ◌↔◌, ◌⊎◌, Bool, true, false, ◌||◌, Option, List, [], ◌∷◌, arith, ◌==◌, if◌then◌else◌,
}
use air_bridge5g.Prelude.Int.{ℤ, pos, negsuc}
use air_bridge5g.Services.Tunnel.{tunnel_stopped, tunnel_running}
use air_bridge5g.Services.Daemon.{
  NodeRole, role_unspecified, role_master, role_client, Daemon, set_role, start_tunnel, stop_tunnel,
}
use air_bridge5g.Mesh.LibP2p.{LibP2pService}
use air_bridge5g.Services.Handlers.{
  map_tunnel_state, map_node_role, map_proto_role, get_status, handle_start_tunnel,
  handle_stop_tunnel, handle_set_role, handle_get_role, Request, start_request, stop_request,
  set_role_request, serve, serve_all,
}

map_proto_role-map_node_role : (r : NodeRole) → map_proto_role (map_node_role r) ≡ r
unfolding map_proto_role map_node_role
map_proto_role-map_node_role role_master = refl
map_proto_role-map_node_role role_client = refl
map_proto_role-map_node_role role_unspecified = refl

-- The role of the last request that names one, or the one before them.
unfoldable pub last_role : ℤ → List Request → ℤ
last_role role [] = role
last_role role (start_request enabled r ∷ rs) = last_role r rs
last_role role (stop_request disabled ∷ rs) = last_role role rs
last_role role (set_role_request r ∷ rs) = last_role r rs

-- Whether the last start or stop among them is a start, or else what was the case before.
unfoldable pub last_started : Bool → List Request → Bool
last_started b [] = b
last_started b (start_request enabled r ∷ rs) = last_started true rs
last_started b (stop_request disabled ∷ rs) = last_started false rs
last_started b (set_role_request r ∷ rs) = last_started b rs

abbrev pub known : ℤ → ℤ
known (pos n) = if n == 1 || n == 2 then pos n else pos 0
known (negsuc n) = pos 0

known_lem : (role : ℤ) → map_node_role (map_proto_role role) ≡ known role
unfolding map_proto_role map_node_role
known_lem (pos n) = ground arith
known_lem (negsuc n) = refl

serve-role :
    (rs : List Request) (role : ℤ) (d : Daemon)
    → handle_get_role d ≡ known role
    → handle_get_role (serve_all rs d) ≡ known (last_role role rs)
unfolding serve_all last_role serve handle_get_role start_tunnel stop_tunnel set_role
    handle_start_tunnel handle_stop_tunnel handle_set_role
serve-role [] role d h = h
serve-role (start_request enabled r ∷ rs) role d h =
    serve-role rs r (serve (start_request enabled r) d) (ground (arith, known_lem r))
serve-role (stop_request disabled ∷ rs) role d h =
    serve-role rs role (serve (stop_request disabled) d) h
serve-role (set_role_request r ∷ rs) role d h =
    serve-role rs r (serve (set_role_request r) d) (known_lem r)

serve-state :
    (rs : List Request) (b : Bool) (d : Daemon)
    → d.tunnel_state ≡ (if b then tunnel_running else tunnel_stopped)
    → (serve_all rs d).tunnel_state ≡ (if last_started b rs then tunnel_running else tunnel_stopped)
unfolding serve_all last_started serve start_tunnel stop_tunnel set_role handle_start_tunnel
    handle_stop_tunnel handle_set_role
serve-state [] b d h = h
serve-state (start_request enabled r ∷ rs) b d h =
    serve-state rs true (serve (start_request enabled r) d) (ground arith)
serve-state (stop_request disabled ∷ rs) b d h =
    serve-state rs false (serve (stop_request disabled) d) refl
serve-state (set_role_request r ∷ rs) b d h = serve-state rs b (serve (set_role_request r) d) h

new_role : (d : Daemon) → d.role ≡ role_unspecified → handle_get_role d ≡ pos 0
unfolding handle_get_role map_node_role
new_role d r = ground arith

known_iff : (n : ℤ) → (known n ≡ n) ↔ (n ≡ pos 0 ⊎ (n ≡ pos 1 ⊎ n ≡ pos 2))
known_iff (pos n) = ground arith
known_iff (negsuc n) = ground arith

-- Whatever calls of StartTunnel, StopTunnel and SetRole a client makes on a new daemon, one after
-- the other, with any number for a role and whether or not the kill switch obeys, the status then
-- names the role of the last call that names one, or "unspecified" where that number is no role or
-- there is none, and it shows the tunnel as running exactly when the last start or stop was a start,
-- and else as stopped. The tunnel's proxy does not fail meanwhile.
pub get_status-serve_all :
    (rs : List Request) (mesh : Option LibP2pService) (d : Daemon)
    → d.role ≡ role_unspecified
    → d.tunnel_state ≡ tunnel_stopped
    → let s = get_status mesh (serve_all rs d) in
      (s.role ≡ known (last_role (pos 0) rs))
      × (s.tunnel_state ≡ (if last_started false rs then pos 3 else pos 1))
unfolding get_status map_tunnel_state
get_status-serve_all rs mesh d r t =
    let a = serve-role rs (pos 0) d (new_role d r) in
    let b = serve-state rs false d t in (unfold handle_get_role in a, ground (arith, b))

-- The roles of the daemon are the numbers 0, 1 and 2 of the protocol: each role comes back from its
-- number, and a number that is given back unchanged is one of these three.
pub map_proto_role-round :
    (r : NodeRole) (n : ℤ)
    → (map_proto_role (map_node_role r) ≡ r)
      × (map_node_role (map_proto_role n) ≡ n ↔ (n ≡ pos 0 ⊎ (n ≡ pos 1 ⊎ n ≡ pos 2)))
map_proto_role-round r n = (map_proto_role-map_node_role r, rw (known_lem n) (known_iff n))

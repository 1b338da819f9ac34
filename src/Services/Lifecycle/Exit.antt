-- ===== src/Services/Lifecycle/Exit.antt =====
-- What the end of a node leaves, in core/go/internal/services/daemon.go and
-- core/go/cmd/securemesh-node/main.go.
use air_bridge5g.Prelude.{
  ◌≡◌, refl, ◌≢◌, ◌↔◌, ◌⊎◌, inl, inr, Bool, true, false, some, List, [], ◌∷◌, arith, Bool-cases,
  All,
}
use air_bridge5g.Prelude.Map.{str_eq_refl}
use air_bridge5g.Prelude.Result.{ok, err}
use air_bridge5g.Prelude.Int.{pos, ltb_ℤ}
use air_bridge5g.Mesh.LibP2p.{LibP2pService, start, stop}
use air_bridge5g.Services.Tunnel.{tunnel_stopped, tunnel_running, tunnel_degraded}
use air_bridge5g.Services.Daemon.{
  Daemon, DaemonConfig, update_cfg, update_daemon_config, set_role, start_tunnel, stop_tunnel,
  listener_fails, listener_returns,
}
use air_bridge5g.Services.Handlers.{
  Request, start_request, stop_request, set_role_request, serve, handle_start_tunnel,
  handle_stop_tunnel, handle_set_role,
}
use air_bridge5g.Services.Pairing.{import_qr_credentials}
use air_bridge5g.Services.Lifecycle.{
  Node, start_node, cancel, stop_mesh, end_stop, stop_node, reloaded_config, reload, restart_tunnel,
  Action, serves, reloads, restarts, imports, proxy_fails, proxy_returns, with_daemon, act, act_all,
  release, exit_main,
}

-- A call of `Disable` in it succeeds.
abbrev pub Obeys : Action → Type 0
Obeys (serves (stop_request disabled)) = disabled ≡ true
Obeys (restarts disabled enabled) = disabled ≡ true
Obeys _ = Unit

-- The network is locked only for a tunnel that runs, or that is degraded by the failure of a proxy.
abbrev pub IsJustified : Daemon → Type 0
IsJustified d =
    (d.kill_switch ≢ some true)
    ⊎ (d.tunnel_state ≡ tunnel_running ⊎ d.tunnel_state ≡ tunnel_degraded)

update_daemon_config-lock :
    (new : DaemonConfig) (d : Daemon)
    → ((update_daemon_config new d).0.kill_switch ≡ d.kill_switch)
      × ((update_daemon_config new d).0.tunnel_state ≡ d.tunnel_state)
unfolding update_daemon_config update_cfg
update_daemon_config-lock new d = (ground arith, ground arith)

serve-IsJustified :
    (r : Request) (d : Daemon) → Obeys (serves r) → IsJustified d → IsJustified (serve r d)
unfolding serve handle_start_tunnel handle_stop_tunnel handle_set_role start_tunnel stop_tunnel
    set_role
serve-IsJustified (start_request enabled r) d o j = ground arith
serve-IsJustified (stop_request disabled) d o j = ground arith
serve-IsJustified (set_role_request r) d o j = j

act-IsJustified :
    (a : Action) (n : Node) → Obeys a → IsJustified n.daemon → IsJustified (act a n).daemon
unfolding act with_daemon reload restart_tunnel start_tunnel stop_tunnel listener_fails
    listener_returns
act-IsJustified (serves r) n o j = serve-IsJustified r n.daemon o j
act-IsJustified (reloads vars) n o j =
    ground (arith, update_daemon_config-lock (reloaded_config vars) n.daemon)
act-IsJustified (restarts disabled enabled) n o j = ground arith
act-IsJustified (imports dial upgrade now seen creds) n o j = j
act-IsJustified proxy_fails n o j = ground arith
act-IsJustified proxy_returns n o j = j

act_all-IsJustified :
    (actions : List Action) (n : Node)
    → All Obeys actions
    → IsJustified n.daemon
    → IsJustified (act_all actions n).daemon
unfolding act_all
act_all-IsJustified [] n o j = j
act_all-IsJustified (a ∷ actions) n (o, os) j =
    act_all-IsJustified actions (act a n) os (act-IsJustified a n o j)

-- The mesh is there, and the context is not cancelled.
abbrev IsUp : Node → Type 0
IsUp n = ((s : LibP2pService) × (n.mesh ≡ some s)) × (n.cancelled ≡ some false)

act-IsUp : (a : Action) (n : Node) → IsUp n → IsUp (act a n)
unfolding act with_daemon import_qr_credentials
act-IsUp (serves r) n u = u
act-IsUp (reloads vars) n u = u
act-IsUp (restarts disabled enabled) n u = u
act-IsUp proxy_fails n u = u
act-IsUp proxy_returns n u = u
act-IsUp (imports dial upgrade now seen (err e)) n u = u
act-IsUp (imports dial upgrade now seen (ok creds)) n ((s, e), c) =
    elim (Bool-cases (ltb_ℤ creds.expires_at (pos now))) [
      | inl l ↦ rw (e, l) ((s, refl), c)
      | inr l ↦ rw (e, l) ((_, refl), c)
    ]

act_all-IsUp : (actions : List Action) (n : Node) → IsUp n → IsUp (act_all actions n)
unfolding act_all
act_all-IsUp [] n u = u
act_all-IsUp (a ∷ actions) n u = act_all-IsUp actions (act a n) (act-IsUp a n u)

start_node-IsUp : (n : Node) (s : LibP2pService) → n.mesh ≡ some s → IsUp (start_node n)
unfolding start_node
start_node-IsUp n s e = ((start s, rw e refl), refl)

stop-started : (waited : Bool) (s : LibP2pService) → (stop waited s).1.started ≡ false
unfolding stop
stop-started waited s = ground arith

-- Take a node with a mesh whose kill switch is on for a running or a degraded tunnel only, start it,
-- and let calls of the control plane, reloads, restarts of the tunnel, imports, and failures and
-- ends of the proxies that the starts left running happen to it in any order, in which every
-- `Disable` succeeds. Then the network is locked for a running tunnel, or for one that a proxy's
-- failure has degraded, and for no other. `Daemon.Stop` then leaves the tunnel stopped and the network
-- locked as it was, so that a tunnel that ran behind the lock is now a lock with no tunnel; and at the
-- end of `main` the mesh is stopped, the context cancelled, and the network locked exactly when it
-- was before and the last `Disable` fails.
pub exit_main-releases :
    (actions : List Action) (waited disabled : Bool) (n : Node) (s : LibP2pService)
    → n.mesh ≡ some s
    → IsJustified n.daemon
    → All Obeys actions
    → let m = act_all actions (start_node n) in
      let stopped = (stop_node waited m).daemon in
      let x = exit_main waited disabled m in
      IsJustified m.daemon
      × (stopped.tunnel_state ≡ tunnel_stopped)
      × (stopped.kill_switch ≡ m.daemon.kill_switch)
      × ((s' : LibP2pService) × (x.mesh ≡ some s') × (s'.started ≡ false))
      × (x.cancelled ≡ some true)
      × ((x.daemon.kill_switch ≡ some true)
          ↔ ((m.daemon.kill_switch ≡ some true) × (disabled ≡ false)))
unfolding exit_main stop_node cancel stop_mesh end_stop release with_daemon
exit_main-releases actions waited disabled n s e j o =
    let m = act_all actions (start_node n) in
    let ((s', p), c) = act_all-IsUp actions (start_node n) (start_node-IsUp n s e) in
    (
      act_all-IsJustified actions (start_node n) o (unfold start_node in j),
      refl,
      refl,
      ((stop waited s').1, rw p refl, stop-started waited s'),
      rw c refl,
      ground arith,
    )

-- A second reload of the same configuration changes nothing more and restarts nothing.
pub update_daemon_config-twice :
    (new : DaemonConfig) (d : Daemon)
    → let d' = (update_daemon_config new d).0 in update_daemon_config new d' ≡ (d', false)
unfolding update_daemon_config update_cfg
update_daemon_config-twice new d = ground (arith, str_eq_refl new.proxy_address)

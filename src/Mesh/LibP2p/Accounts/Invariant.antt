-- ===== src/Mesh/LibP2p/Accounts/Invariant.antt =====
-- The connections of core/go/internal/mesh/libp2p.go and tcp_listener.go along a run.
use air_bridge5g.Prelude.{ℕ, ◌+◌, ◌≤◌, ◌≡◌, refl, some, List, ◌++◌, arith, Bytes}
use air_bridge5g.Prelude.Totals.{count}
use air_bridge5g.Mesh.LibP2p.{new_service, start}
use air_bridge5g.Mesh.LibP2p.Health.{count_peers}
use air_bridge5g.Mesh.LibP2p.Gossip.{count_message, handle_message, share, add_listen_addr}
use air_bridge5g.Mesh.LibP2p.Runs.{
  accepted, Mesh, new_mesh, bind_udp, bind_tcp, incoming, register_incoming, end_reader, Step,
  starts, stops, binds_udp, binds_tcp, begins_connect, ends_connect, accepts, registers, reads,
  read_fails, disconnects, checks_health, counts_peers, hears, shares, finds_addr, subscribes,
  unsubscribes, receives, Steps, stay, next,
}
use air_bridge5g.Mesh.LibP2p.Accounts.{in_table}
use air_bridge5g.Mesh.LibP2p.Accounts.Operations.{
  in_pending, in_pending-take, IsAccounted, keeps, begin_connect-IsAccounted, register-IsAccounted,
  accept-IsAccounted, disconnect-IsAccounted, stop-IsAccounted, update-IsAccounted,
  health_check-IsAccounted, hears-IsAccounted, end_connect-IsAccounted,
}

Step-IsAccounted : {m n : Mesh} → Step m n → IsAccounted m → IsAccounted n
unfolding start bind_udp bind_tcp register_incoming end_reader count_peers handle_message share
    add_listen_addr count_message
Step-IsAccounted (starts {m}) v =
    keeps m _ v (ground arith) (λ n. ground arith) (ground arith) (ground arith)
Step-IsAccounted (stops {m} waited) v = stop-IsAccounted waited m v
Step-IsAccounted (binds_udp {m}) v =
    keeps m _ v (ground arith) (λ n. ground arith) (ground arith) (ground arith)
Step-IsAccounted (binds_tcp {m} c) v =
    keeps m _ v (ground arith) (λ n. ground arith) (ground arith) (ground arith)
Step-IsAccounted (begins_connect {m} dial upgrade peer e) v =
    begin_connect-IsAccounted dial upgrade peer m v
Step-IsAccounted (ends_connect {m} before after peer conn now e) v =
    end_connect-IsAccounted before after peer conn now m e v
Step-IsAccounted (accepts {m} upgrades e) v = accept-IsAccounted upgrades m v
Step-IsAccounted (registers {m} before after c id now e) v =
    let r =
      register-IsAccounted (before ++ after) (incoming id) (some c) now m v
        (λ n. in_pending-take n before after (accepted c) m.pending e) in
    record { is_map = r.is_map; is_fresh = r.is_fresh; placed = r.placed }
Step-IsAccounted (reads {m} id now) v = update-IsAccounted id now m v
Step-IsAccounted (read_fails {m} before after id c e) v =
    let r = disconnect-IsAccounted id m v in
    record { is_map = r.is_map; is_fresh = r.is_fresh; placed = r.placed }
Step-IsAccounted (disconnects {m} id) v = disconnect-IsAccounted id m v
Step-IsAccounted (checks_health {m} clock now) v = health_check-IsAccounted clock now m v
Step-IsAccounted (counts_peers {m}) v = keeps m _ v v.is_map (λ n. refl) refl refl
Step-IsAccounted (hears {m} msg n now) v = hears-IsAccounted msg n now m v
Step-IsAccounted (shares {m} encode reach now) v =
    keeps m _ v (ground arith) (λ n. ground arith) (ground arith) (ground arith)
Step-IsAccounted (finds_addr {m} addr) v =
    keeps m _ v (ground arith) (λ n. ground arith) (ground arith) (ground arith)
Step-IsAccounted (subscribes {m} topic e) v = keeps m _ v v.is_map (λ n. refl) refl refl
Step-IsAccounted (unsubscribes {m} topic ch) v = keeps m _ v v.is_map (λ n. refl) refl refl
Step-IsAccounted (receives {m} ch) v = keeps m _ v v.is_map (λ n. refl) refl refl

Steps-IsAccounted : {m n : Mesh} → Steps m n → IsAccounted m → IsAccounted n
Steps-IsAccounted stay v = v
Steps-IsAccounted (next r q) v = Step-IsAccounted q (Steps-IsAccounted r v)

new_mesh-IsAccounted :
    (node_id : Bytes) (listen_addrs : List Bytes) → IsAccounted (new_mesh node_id listen_addrs)
unfolding new_mesh new_service
new_mesh-IsAccounted node_id listen_addrs = record {
  is_map = tt;
  is_fresh = λ n. ground arith;
  placed = λ n. refl;
}

-- In every run of the mesh service, whatever the order in which calls, ticks, accepted connections
-- and read loops interleave, each connection number is given once, and the connection of a number
-- stands in exactly one place: it is the connection of one peer of the table, or on its way into
-- the table, or it has been closed once. So none is closed twice, none is closed while it is in the
-- table, and none that leaves the table is left open.
pub connections-placed :
    (node_id : Bytes) (listen_addrs : List Bytes) (m : Mesh) (n : ℕ)
    → Steps (new_mesh node_id listen_addrs) m
    → (count n m.service.conns.opened ≤ 1)
      × (in_table n m.service.peers + in_pending n m.pending + count n m.service.conns.closed
          ≡ count n m.service.conns.opened)
connections-placed node_id listen_addrs m n r =
    let v = Steps-IsAccounted r (new_mesh-IsAccounted node_id listen_addrs) in
    (ground (arith, v.is_fresh n), omega (arith, v.placed n))

-- ===== src/Mesh/LibP2p/Counter.antt =====
-- The counter of connected peers of core/go/internal/mesh/libp2p.go and tcp_listener.go.
use air_bridge5g.Prelude.{
  ℕ, ◌+◌, ◌≡◌, refl, ◌≢◌, ◌⊎◌, inl, inr, Bool, true, some, List, [], ◌∷◌, arith, Bytes,
  Option-cases, length,
}
use air_bridge5g.Prelude.Map.{lookup, insert}
use air_bridge5g.Prelude.Totals.{count}
use air_bridge5g.Mesh.LibP2p.{
  ConnectedPeer, LibP2pService, new_service, start, register, finish_connect, disconnect, stop,
  update_peer_last_seen,
}
use air_bridge5g.Mesh.LibP2p.Accounts.{in_table, close_peers-count}
use air_bridge5g.Mesh.LibP2p.Health.{health_check, count_peers}
use air_bridge5g.Mesh.LibP2p.Gossip.{
  GossipMessage, count_message, handle_message, share, add_listen_addr,
}
use air_bridge5g.Mesh.LibP2p.Runs.{
  Mesh, new_mesh, bind_udp, bind_tcp, begin_connect, end_connect, accept, register_incoming,
  end_reader, Step, starts, stops, binds_udp, binds_tcp, begins_connect, ends_connect, accepts,
  registers, reads, read_fails, disconnects, checks_health, counts_peers, hears, shares, finds_addr,
  subscribes, unsubscribes, receives, Steps, stay, next,
}

-- The counter is the number of peers, or the table is empty.
abbrev pub IsCounted : LibP2pService → Type 0
IsCounted s = (s.stats.connected_peers ≡ length s.peers) ⊎ (s.peers ≡ [])

insert-length :
    (id : Bytes) (p q : ConnectedPeer) (m : List (Bytes × ConnectedPeer))
    → lookup id m ≡ some p
    → length (insert id q m) ≡ length m
unfolding insert lookup
insert-length id p q [] h = cc
insert-length id p q ((j, r) ∷ m) h = ground (arith, insert-length id p q m)

update-IsCounted :
    (id : Bytes) (now : ℕ) (s : LibP2pService)
    → IsCounted s
    → IsCounted (update_peer_last_seen id now s)
unfolding update_peer_last_seen lookup
update-IsCounted id now s (inl e) = elim (Option-cases (lookup id s.peers)) [
  | inl h ↦ inl (ground arith)
  | inr (p, h) ↦ inl (ground (arith, insert-length id p (record p { last_seen = now }) s.peers))
]
update-IsCounted id now s (inr e) = inr (ground arith)

disconnect-IsCounted :
    (id : Bytes) (s : LibP2pService) → IsCounted s → IsCounted (disconnect id s).1
unfolding disconnect
disconnect-IsCounted id s v = ground arith

hears-IsCounted :
    (msg : GossipMessage) (n now : ℕ) (s : LibP2pService)
    → IsCounted s
    → IsCounted (handle_message msg n now s)
unfolding handle_message count_message
hears-IsCounted msg n now s v =
    let u = update-IsCounted msg.sender now (count_message n s) v in ground arith

stop-IsCounted : (waited : Bool) (s : LibP2pService) → IsCounted s → IsCounted (stop waited s).1
unfolding stop
stop-IsCounted waited s v = ground arith

Step-IsCounted : {m n : Mesh} → Step m n → IsCounted m.service → IsCounted n.service
unfolding start bind_udp bind_tcp begin_connect end_connect accept register_incoming end_reader
    register finish_connect health_check count_peers share add_listen_addr count_message
Step-IsCounted (starts) v = ground arith
Step-IsCounted (stops {m} waited) v = stop-IsCounted waited m.service v
Step-IsCounted (binds_udp) v = ground arith
Step-IsCounted (binds_tcp c) v = ground arith
Step-IsCounted (begins_connect dial upgrade peer e) v = v
Step-IsCounted (ends_connect before after peer conn now e) v = inl refl
Step-IsCounted (accepts upgrades e) v = ground arith
Step-IsCounted (registers before after c id now e) v = inl refl
Step-IsCounted (reads {m} id now) v = update-IsCounted id now m.service v
Step-IsCounted (read_fails {m} before after id c e) v = disconnect-IsCounted id m.service v
Step-IsCounted (disconnects {m} id) v = disconnect-IsCounted id m.service v
Step-IsCounted (checks_health clock now) v = inl refl
Step-IsCounted (counts_peers) v = v
Step-IsCounted (hears {m} msg n now) v = hears-IsCounted msg n now m.service v
Step-IsCounted (shares encode reach now) v = ground arith
Step-IsCounted (finds_addr addr) v = ground arith
Step-IsCounted (subscribes topic e) v = v
Step-IsCounted (unsubscribes topic ch) v = v
Step-IsCounted (receives ch) v = v

Steps-IsCounted : {m n : Mesh} → Steps m n → IsCounted m.service → IsCounted n.service
Steps-IsCounted stay v = v
Steps-IsCounted (next r q) v = Step-IsCounted q (Steps-IsCounted r v)

new_mesh-IsCounted :
    (node_id : Bytes) (listen_addrs : List Bytes)
    → IsCounted (new_mesh node_id listen_addrs).service
unfolding new_mesh new_service
new_mesh-IsCounted node_id listen_addrs = inr refl

-- In every run of the mesh service the counter of connected peers is the number of peers in the
-- table whenever the table holds a peer.
pub connected_peers-counted :
    (node_id : Bytes) (listen_addrs : List Bytes) (m : Mesh)
    → Steps (new_mesh node_id listen_addrs) m
    → m.service.peers ≢ []
    → m.service.stats.connected_peers ≡ length m.service.peers
connected_peers-counted node_id listen_addrs m r h =
    elim (Steps-IsCounted r (new_mesh-IsCounted node_id listen_addrs)) [
      | inl e ↦ e
      | inr e ↦ absurd (h e)
    ]

-- A `Stop` of a started service whose goroutines end in time closes the connection of every peer
-- once more, empties the table, and leaves the counter of connected peers as it was.
pub stop-closes_peers :
    (s : LibP2pService) (n : ℕ)
    → s.started ≡ true
    → let (ok, s') = stop true s in
      (ok ≡ true)
      × (s'.peers ≡ [])
      × (count n s'.conns.closed ≡ in_table n s.peers + count n s.conns.closed)
      × (s'.stats.connected_peers ≡ s.stats.connected_peers)
unfolding stop
stop-closes_peers s n h = ground (arith, close_peers-count n s.peers s.conns)

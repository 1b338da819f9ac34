-- ===== src/Mesh/LibP2p/Changes.antt =====
-- The subscribers of core/go/internal/mesh/libp2p.go step by step.
use air_bridge5g.Prelude.{
  ℕ, ◌≡◌, sym, subst, inl, inr, Bool, List, [], ◌∷◌, arith, Bytes, Bool-cases,
}
use air_bridge5g.Prelude.Map.{str_eq}
use air_bridge5g.Mesh.Events.{
  DiscoveryEvent, Events, subscribe, unsubscribe, emit_event, receive, close_all,
}
use air_bridge5g.Mesh.LibP2p.{
  ConnectedPeer, LibP2pService, start, register, finish_connect, disconnect, stop,
  update_peer_last_seen,
}
use air_bridge5g.Mesh.LibP2p.Health.{health_check, count_peers}
use air_bridge5g.Mesh.LibP2p.Gossip.{
  GossipMessage, count_message, handle_message, share, add_listen_addr, discover, discovered,
  is_known,
}
use air_bridge5g.Mesh.LibP2p.Runs.{
  Mesh, bind_udp, bind_tcp, begin_connect, end_connect, accept, register_incoming, end_reader, Step,
  starts, stops, binds_udp, binds_tcp, begins_connect, ends_connect, accepts, registers, reads,
  read_fails, disconnects, checks_health, counts_peers, hears, shares, finds_addr, subscribes,
  unsubscribes, receives,
}

-- What a step can do to the events.
pub data Change : Events → Events → Type 0 where
  none_of_them : {ev : Events} → Change ev ev
  emits :
      {ev ev' : Events} (event : DiscoveryEvent)
      → Change ev ev'
      → Change ev (emit_event [] event ev')
  subs : {ev : Events} (topic : Bytes) → Change ev (subscribe topic ev).1
  unsubs : {ev : Events} (topic : Bytes) (ch : ℕ) → Change ev (unsubscribe topic ch ev)
  takes : {ev : Events} (ch : ℕ) → Change ev (receive ch ev).1
  closes : {ev : Events} → Change ev (close_all ev)

same : (ev ev' : Events) → ev' ≡ ev → Change ev ev'
same ev ev' e = subst (λ x. Change ev x) (sym e) none_of_them

discover-Change :
    (m : List (Bytes × ConnectedPeer)) (addrs : List Bytes) {ev ev' : Events}
    → Change ev ev'
    → Change ev (discover m addrs ev')
unfolding discover
discover-Change m [] c = c
discover-Change m (addr ∷ addrs) {ev} {ev'} c = elim (Bool-cases (is_known addr m)) [
  | inl e ↦ rw e (discover-Change m addrs c)
  | inr e ↦ rw e (discover-Change m addrs (emits (discovered addr) c))
]

stop-Change : (waited : Bool) (s : LibP2pService) → Change s.events (stop waited s).1.events
unfolding stop
stop-Change waited s = elim (Bool-cases s.started) [
  | inl e ↦ elim (Bool-cases waited) [
    | inl e' ↦ rw (e, e') closes
    | inr e' ↦ rw (e, e') none_of_them
  ]
  | inr e ↦ rw e none_of_them
]

update-events :
    (id : Bytes) (now : ℕ) (s : LibP2pService) → (update_peer_last_seen id now s).events ≡ s.events
unfolding update_peer_last_seen
update-events id now s = ground arith

disconnect-events : (id : Bytes) (s : LibP2pService) → (disconnect id s).1.events ≡ s.events
unfolding disconnect
disconnect-events id s = ground arith

hears-Change :
    (msg : GossipMessage) (n now : ℕ) (s : LibP2pService)
    → Change s.events (handle_message msg n now s).events
unfolding handle_message count_message
hears-Change msg n now s = elim (Bool-cases (str_eq msg.sender s.node_id)) [
  | inl e ↦ rw e none_of_them
  | inr e ↦ rw e (
      discover-Change _ msg.known_peers
        (same s.events _ (update-events msg.sender now (count_message n s))))
]

pub Step-Change : {m n : Mesh} → Step m n → Change m.service.events n.service.events
unfolding start bind_udp bind_tcp begin_connect end_connect accept register_incoming end_reader
    register finish_connect health_check count_peers share add_listen_addr count_message
Step-Change (starts {m}) = same _ _ (ground arith)
Step-Change (stops {m} waited) = stop-Change waited m.service
Step-Change (binds_udp {m}) = same _ _ (ground arith)
Step-Change (binds_tcp {m} c) = same _ _ (ground arith)
Step-Change (begins_connect dial upgrade peer e) = none_of_them
Step-Change (ends_connect before after peer conn now e) =
    emits (record { peer = peer }) none_of_them
Step-Change (accepts {m} upgrades e) = same _ _ (ground arith)
Step-Change (registers before after c id now e) = none_of_them
Step-Change (reads {m} id now) = same _ _ (update-events id now m.service)
Step-Change (read_fails {m} before after id c e) = same _ _ (disconnect-events id m.service)
Step-Change (disconnects {m} id) = same _ _ (disconnect-events id m.service)
Step-Change (checks_health clock now) = none_of_them
Step-Change (counts_peers) = none_of_them
Step-Change (hears {m} msg n now) = hears-Change msg n now m.service
Step-Change (shares {m} encode reach now) = same _ _ (ground arith)
Step-Change (finds_addr {m} addr) = same _ _ (ground arith)
Step-Change (subscribes topic e) = subs topic
Step-Change (unsubscribes topic ch) = unsubs topic ch
Step-Change (receives ch) = takes ch

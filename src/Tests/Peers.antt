-- ===== src/Tests/Peers.antt =====
-- Concrete runs of the mesh service of core/go/internal/mesh/libp2p.go.
use air_bridge5g.Prelude.{
  ℕ, ◌+◌, ◌-◌, ◌≤◌, ◌≡◌, refl, ◌⊎◌, Bool, true, false, not, ◌&&◌, Option, none, some, List, [], ◌∷◌,
  ◌++◌, Bytes, codes, ◌==◌, if◌then◌else◌, length, take,
}
use air_bridge5g.Prelude.Map.{str_eq, lookup, insert}
use air_bridge5g.Prelude.Totals.{count, IsMap}
use air_bridge5g.Prelude.Int.{add64}
use air_bridge5g.Mesh.Events.{PeerInfo, new_events, capacity, subscribed, subscribe}
use air_bridge5g.Mesh.LibP2p.{
  ConnectedPeer, LibP2pService, MeshError, not_started, self_connect, new_service, start, connect,
  connect_error, dial_addrs,
}
use air_bridge5g.Mesh.LibP2p.Health.{health_check, survives, health_check-survives}
use air_bridge5g.Mesh.LibP2p.Gossip.{GossipMessage, handle_message}
use air_bridge5g.Mesh.LibP2p.Gossip.Discovery.{discoveries, handle_message-delivers}
use air_bridge5g.Mesh.LibP2p.Runs.{
  accepted, Mesh, new_mesh, with_service, begin_connect, end_connect, incoming, register_incoming,
  end_reader, starts, begins_connect, ends_connect, Steps, stay, next,
}
use air_bridge5g.Mesh.LibP2p.Accounts.{in_table}
use air_bridge5g.Mesh.LibP2p.Accounts.Operations.{in_pending}
use air_bridge5g.Mesh.LibP2p.Accounts.Invariant.{connections-placed}
use air_bridge5g.Mesh.LibP2p.Subscriptions.{channels-no_panic, topic_subscriber-starves}
use air_bridge5g.Mesh.LibP2p.Table.{
  stale_reader-disconnects, first_secured, refused, former_conn, connect-registers,
}

abbrev node : Bytes
node = codes "n1"

abbrev addrs : List Bytes
addrs = codes "a" ∷ []

abbrev other_peer : PeerInfo
other_peer = record { id = codes "p"; public_key = []; addrs = codes "p:1" ∷ [] }

abbrev reaches : ℕ → Bytes → Bool
reaches n addr = true

abbrev upgrades : ℕ → Bool
upgrades n = true

abbrev running : Mesh
running = with_service (new_mesh node addrs) (start (new_mesh node addrs).service)

abbrev dialing : Mesh
dialing = begin_connect reaches upgrades other_peer running

abbrev connected : Mesh
connected = end_connect [] other_peer (some 0) 5 dialing

starting : Steps (new_mesh node addrs) running
starting = next stay starts

connecting : Steps (new_mesh node addrs) connected
unfolding new_mesh new_service start begin_connect connect_error dial_addrs str_eq
connecting =
    next (next starting (begins_connect reaches upgrades other_peer refl))
      (ends_connect [] [] other_peer (some 0) 5 refl)

connections-placed_example :
    (count 0 connected.service.conns.opened ≤ 1)
    × (in_table 0 connected.service.peers
          + in_pending 0 connected.pending
          + count 0 connected.service.conns.closed
        ≡ count 0 connected.service.conns.opened)
connections-placed_example = connections-placed node addrs connected 0 connecting

channels-no_panic_example : connected.service.events.panicked ≡ false
channels-no_panic_example = channels-no_panic node addrs connected connecting

abbrev topic : Bytes
topic = codes "t"

abbrev subscribing : Mesh
subscribing =
    with_service running
      (record running.service { events = (subscribe topic running.service.events).1 })

abbrev later : Mesh
later = end_connect [] other_peer (some 0) 5 (begin_connect reaches upgrades other_peer subscribing)

going_on : Steps subscribing later
unfolding new_mesh new_service start begin_connect connect_error dial_addrs str_eq
going_on =
    next (next stay (begins_connect reaches upgrades other_peer refl))
      (ends_connect [] [] other_peer (some 0) 5 refl)

named : str_eq topic [] ≡ false
unfolding str_eq
named = refl

topic_subscriber-starves_example :
    later.service.events.buffer (subscribe topic running.service.events).0 ≡ []
topic_subscriber-starves_example =
    topic_subscriber-starves node addrs topic running later starting named going_on

-- A peer with a connection, and one without.
abbrev entry : PeerInfo → ℕ → Option ℕ → ConnectedPeer
entry peer seen conn = record { info = peer; connected_at = seen; last_seen = seen; conn = conn }

abbrev with_peers : List (Bytes × ConnectedPeer) → LibP2pService
with_peers m = record (new_service node addrs) { started = true; peers = m }

abbrev two_peers : LibP2pService
two_peers =
    with_peers
      ((codes "p", entry other_peer 7 (some 0)) ∷ (codes "q", entry other_peer 7 none) ∷ [])

two_peers-IsMap : IsMap two_peers.peers
unfolding lookup str_eq
two_peers-IsMap = (refl, (refl, tt))

health_check-survives_example :
    (lookup (codes "q") (health_check (λ id. 9) 70_000_000_000 two_peers).peers
      ≡ survives 9 70_000_000_000 (lookup (codes "q") two_peers.peers))
    × ((health_check (λ id. 9) 70_000_000_000 two_peers).stats.connected_peers
        ≡ length (health_check (λ id. 9) 70_000_000_000 two_peers).peers)
health_check-survives_example =
    health_check-survives (λ id. 9) 70_000_000_000 (codes "q") two_peers two_peers-IsMap

-- A peer that has connected twice.
abbrev twice : Mesh
twice = record {
  service = with_peers ((codes "p", entry (incoming (codes "p")) 7 (some 0)) ∷ []);
  pending = accepted 1 ∷ [];
  readers = (codes "p", 0) ∷ [];
}

abbrev registered : Mesh
registered = register_incoming [] 1 (codes "p") 9 twice

abbrev dropped : Mesh
dropped = end_reader ((codes "p", 1) ∷ []) (codes "p") registered

found : lookup (codes "p") twice.service.peers ≡ some (entry (incoming (codes "p")) 7 (some 0))
unfolding lookup str_eq
found = refl

stale_reader-disconnects_example :
    Steps twice dropped
    × (lookup (codes "p") registered.service.peers ≡ some (entry (incoming (codes "p")) 9 (some 1)))
    × (registered.service.conns.closed ≡ 0 ∷ twice.service.conns.closed)
    × (lookup (codes "p") dropped.service.peers ≡ none)
    × (dropped.service.conns.closed ≡ 1 ∷ registered.service.conns.closed)
stale_reader-disconnects_example =
    stale_reader-disconnects twice [] [] [] [] (codes "p") (entry (incoming (codes "p")) 7 (some 0))
      0 1 9 refl refl found refl

-- A dial that is refused at the handshake, and one that succeeds.
abbrev secures : ℕ → Bool
secures n = n == two_peers.conns.next_conn + 1

abbrev two_addrs : PeerInfo
two_addrs = record other_peer { addrs = codes "a" ∷ codes "b" ∷ [] }

abbrev tried : Option MeshError × LibP2pService
tried = connect reaches secures two_addrs 9 two_peers

abbrev connects : Bool
connects = two_peers.started && not (str_eq two_addrs.id two_peers.node_id)

abbrev secured : Option ℕ
secured = first_secured reaches secures two_peers.conns.next_conn two_addrs.addrs

connect-registers_example :
    (tried.0 ≡ (
      if two_peers.started
      then (if str_eq two_addrs.id two_peers.node_id then some self_connect else none)
      else some not_started))
    × ((connects ≡ true) ⊎ (tried.1 ≡ two_peers))
    × (lookup (codes "p") tried.1.peers ≡ (
        if connects && str_eq two_addrs.id (codes "p")
        then some (record { info = two_addrs; connected_at = 9; last_seen = 9; conn = secured })
        else lookup (codes "p") two_peers.peers))
    × (tried.1.conns.closed ≡ (
        if connects
        then former_conn (lookup two_addrs.id two_peers.peers)
          ++ (refused reaches secures two_peers.conns.next_conn two_addrs.addrs
              ++ two_peers.conns.closed)
        else two_peers.conns.closed))
    × (tried.1.stats.connected_peers
        ≡ (if connects then length tried.1.peers else two_peers.stats.connected_peers))
    × (((n : ℕ) (addr : Bytes) → reaches n addr ≡ false) → secured ≡ none)
connect-registers_example = connect-registers reaches secures two_addrs 9 two_peers (codes "p")

-- A subscriber of every event, and a message that names a new address.
abbrev listening : LibP2pService
listening = record two_peers { events = (subscribe [] new_events).1 }

abbrev message : GossipMessage
message = record {
  version = 1;
  sender = codes "q";
  known_peers = codes "p:1" ∷ codes "r:2" ∷ [];
  timestamp = 3;
}

abbrev heard : LibP2pService
heard = handle_message message 40 11 listening

one_subscriber : count 0 (subscribed [] listening.events) ≡ 1
unfolding subscribe subscribed new_events insert lookup str_eq
one_subscriber = refl

open_subscriber : listening.events.is_closed 0 ≡ false
unfolding subscribe new_events
open_subscriber = refl

handle_message-delivers_example :
    (str_eq message.sender listening.node_id ≡ true → heard ≡ listening)
    × (str_eq message.sender listening.node_id ≡ false
        → (heard.events.buffer 0
            ≡ listening.events.buffer 0
              ++ take
                  (capacity - length (listening.events.buffer 0))
                  (discoveries listening.peers message.known_peers))
          × (lookup (codes "q") heard.peers ≡ elim (lookup (codes "q") listening.peers) [
            | none ↦ none
            | some p ↦
                some (if str_eq message.sender (codes "q") then record p { last_seen = 11 } else p)
          ])
          × (heard.stats.messages_relayed ≡ add64 listening.stats.messages_relayed 1)
          × (heard.stats.bytes_relayed ≡ add64 listening.stats.bytes_relayed 40))
handle_message-delivers_example =
    handle_message-delivers message 40 11 0 (codes "q") listening one_subscriber open_subscriber

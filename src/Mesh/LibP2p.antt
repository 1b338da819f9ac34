-- ===== src/Mesh/LibP2p.antt =====
-- The peers of core/go/internal/mesh/libp2p.go and tcp_listener.go. A connection is the number of
-- the call that made it, `DialTimeout` or `Accept`; its upgrade to a secure connection keeps the
-- number. Sockets and the clock are arguments.
pub mod Runs
pub mod Accounts
pub mod Health
pub mod Gossip
pub mod Table
pub mod Counter
pub mod Changes
pub mod Subscriptions
pub mod Identity
use air_bridge5g.Prelude.{
  ℕ, ◌+◌, Bool, true, false, not, ◌&&◌, Option, none, some, List, [], ◌∷◌, Bytes, if◌then◌else◌,
  length,
}
use air_bridge5g.Prelude.Map.{str_eq, lookup, insert, erase}
use air_bridge5g.Prelude.Int.{add64}
use air_bridge5g.Mesh.Events.{PeerInfo, DiscoveryEvent, Events, new_events, emit_event, close_all}

pub record MeshStats : Type 0 where
  pub connected_peers : ℕ
  pub discovered_peers : ℕ
  pub messages_relayed : ℕ
  pub bytes_relayed : ℕ
  pub connection_errors : ℕ
  pub nat_traversals : ℕ

pub data MeshError : Type 0 where
  not_started peer_not_found self_connect : MeshError

pub record ConnectedPeer : Type 0 where
  pub info : PeerInfo
  pub connected_at : ℕ
  pub last_seen : ℕ
  pub conn : Option ℕ

-- What has become of the connections: the number of the next one, those that were made, and the
-- calls of `Close`.
pub record Conns : Type 0 where
  pub next_conn : ℕ
  pub opened : List ℕ
  pub closed : List ℕ

pub record LibP2pService : Type 0 where
  pub node_id : Bytes
  pub listen_addrs : List Bytes
  pub started : Bool
  -- The gossip socket and the listener are open.
  pub udp_open : Bool
  pub tcp_open : Bool
  pub stats : MeshStats
  pub peers : List (Bytes × ConnectedPeer)
  pub conns : Conns
  pub events : Events

-- The end of `NewLibP2PService`: the identity is the argument.
unfoldable pub new_service : Bytes → List Bytes → LibP2pService
new_service node_id listen_addrs = record {
  node_id = node_id;
  listen_addrs = listen_addrs;
  started = false;
  udp_open = false;
  tcp_open = false;
  stats = record {
    connected_peers = 0;
    discovered_peers = 0;
    messages_relayed = 0;
    bytes_relayed = 0;
    connection_errors = 0;
    nat_traversals = 0;
  };
  peers = [];
  conns = record { next_conn = 0; opened = []; closed = [] };
  events = new_events;
}

unfoldable pub start : LibP2pService → LibP2pService
start s = if s.started then s else record s { started = true }

unfoldable pub close_conn : Option ℕ → Conns → Conns
close_conn none cs = cs
close_conn (some c) cs = record cs { closed = c ∷ cs.closed }

-- A connection that is made takes the next number.
unfoldable pub open_conn : Conns → Conns
open_conn cs = record cs { next_conn = cs.next_conn + 1; opened = cs.next_conn ∷ cs.opened }

-- The loop of `Stop` over the peers.
unfoldable pub close_peers : List (Bytes × ConnectedPeer) → Conns → Conns
close_peers [] cs = cs
close_peers ((id, p) ∷ m) cs = close_peers m (close_conn p.conn cs)

-- `Stop`, with whether it returns nil; `waited` is whether the goroutines end before the context.
unfoldable pub stop : Bool → LibP2pService → Bool × LibP2pService
stop waited s =
    if not s.started
    then (true, s)
    else let s1 = record s { started = false; udp_open = false; tcp_open = false } in
      if not waited then (false, s1) else (
        true,
        record s1 { peers = []; conns = close_peers s.peers s.conns; events = close_all s.events },
      )

-- The loop of `Connect` over the addresses. `dial n addr` is whether the dial succeeds that would
-- make connection n, and `upgrade n` whether the handshake on it does.
unfoldable pub dial_addrs : (ℕ → Bytes → Bool) → (ℕ → Bool) → List Bytes → Conns → Option ℕ × Conns
dial_addrs dial upgrade [] cs = (none, cs)
dial_addrs dial upgrade (addr ∷ addrs) cs =
    let n = cs.next_conn in
    let after =
      if dial n addr
      then (if upgrade n then open_conn cs else close_conn (some n) (open_conn cs))
      else cs in
    if dial n addr && upgrade n then (some n, after) else dial_addrs dial upgrade addrs after

unfoldable pub close_existing : Option ConnectedPeer → Conns → Conns
close_existing none cs = cs
close_existing (some p) cs = close_conn p.conn cs

-- The entry of a peer, in `Connect` and in `tcpListenerLoop`, with the mutex held.
unfoldable pub register : PeerInfo → Option ℕ → ℕ → LibP2pService → LibP2pService
register peer conn now s =
    let peers' =
      insert peer.id (record { info = peer; connected_at = now; last_seen = now; conn = conn })
        s.peers in
    record s {
      peers = peers';
      conns = close_existing (lookup peer.id s.peers) s.conns;
      stats = record s.stats { connected_peers = length peers' };
    }

-- `Connect` behind its dials.
unfoldable pub finish_connect : PeerInfo → Option ℕ → ℕ → LibP2pService → LibP2pService
finish_connect peer conn now s =
    let s1 = register peer conn now s in
    record s1 {
      stats = record s1.stats { discovered_peers = add64 s1.stats.discovered_peers 1 };
      events = emit_event [] (record { peer = peer }) s1.events;
    }

-- The two tests of `Connect`.
unfoldable pub connect_error : PeerInfo → LibP2pService → Option MeshError
connect_error peer s =
    if not s.started
    then some not_started
    else if str_eq peer.id s.node_id
    then some self_connect
    else none

-- `Connect` with nothing else between its dials and its lock.
unfoldable pub connect :
    (ℕ → Bytes → Bool)
    → (ℕ → Bool)
    → PeerInfo
    → ℕ
    → LibP2pService
    → Option MeshError × LibP2pService
connect dial upgrade peer now s =
    let (conn, cs) = dial_addrs dial upgrade peer.addrs s.conns in
    elim (connect_error peer s) [
      | some e ↦ (some e, s)
      | none ↦ (none, finish_connect peer conn now (record s { conns = cs }))
    ]

unfoldable pub disconnect : Bytes → LibP2pService → Option MeshError × LibP2pService
disconnect id s = elim (lookup id s.peers) [
  | none ↦ (some peer_not_found, s)
  | some p ↦ (
    none,
    record s {
      peers = erase id s.peers;
      conns = close_conn p.conn s.conns;
      stats = record s.stats { connected_peers = length (erase id s.peers) };
    },
  )
]

unfoldable pub infos : List (Bytes × ConnectedPeer) → List PeerInfo
infos [] = []
infos ((id, p) ∷ m) = p.info ∷ infos m

unfoldable pub list_connected_peers : LibP2pService → List PeerInfo
list_connected_peers s = infos s.peers

unfoldable pub update_peer_last_seen : Bytes → ℕ → LibP2pService → LibP2pService
update_peer_last_seen id now s = elim (lookup id s.peers) [
  | none ↦ s
  | some p ↦ record s { peers = insert id (record p { last_seen = now }) s.peers }
]

-- `Advertise`, which only logs.
unfoldable pub advertise : LibP2pService → Option MeshError
advertise s = if not s.started then some not_started else none

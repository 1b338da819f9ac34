-- ===== src/Mesh/LibP2p/Runs.antt =====
-- The mesh service of core/go/internal/mesh/libp2p.go with its goroutines and callers: a step is
-- what happens under one lock or between two of them. A tick may come at any time.
use air_bridge5g.Prelude.{
  ℕ, ◌≡◌, Bool, true, not, Option, none, some, List, [], ◌∷◌, ◌++◌, Bytes, if◌then◌else◌,
}
use air_bridge5g.Mesh.Events.{PeerInfo, subscribe, unsubscribe, receive}
use air_bridge5g.Mesh.LibP2p.{
  LibP2pService, new_service, start, stop, open_conn, close_conn, dial_addrs, register,
  finish_connect, connect_error, disconnect, update_peer_last_seen,
}
use air_bridge5g.Mesh.LibP2p.Health.{health_check, count_peers}
use air_bridge5g.Mesh.LibP2p.Gossip.{GossipMessage, handle_message, share, add_listen_addr}

-- A connection on its way into the table: behind the dials of `Connect`, or accepted and upgraded.
pub data Pending : Type 0 where
  dialed : PeerInfo → Option ℕ → Pending
  accepted : ℕ → Pending

pub record Mesh : Type 0 where
  pub service : LibP2pService
  pub pending : List Pending
  -- The read loops of `tcpListenerLoop`: the identity and the connection.
  pub readers : List (Bytes × ℕ)

unfoldable pub new_mesh : Bytes → List Bytes → Mesh
new_mesh node_id listen_addrs = record {
  service = new_service node_id listen_addrs;
  pending = [];
  readers = [];
}

abbrev pub with_service : Mesh → LibP2pService → Mesh
with_service m s = record m { service = s }

-- `gossipListenerLoop` and `tcpListenerLoop` up to their loops.
unfoldable pub bind_udp : LibP2pService → LibP2pService
bind_udp s = elim s.listen_addrs [ [] ↦ s | a ∷ as' ↦ record s { udp_open = true } ]

-- `cancelled` is whether the context is done by then.
unfoldable pub bind_tcp : Bool → LibP2pService → LibP2pService
bind_tcp cancelled s = elim s.listen_addrs [
  | [] ↦ s
  | a ∷ as' ↦ record s { tcp_open = not cancelled }
]

-- Behind the dials of `Connect`.
unfoldable pub begin_connect : (ℕ → Bytes → Bool) → (ℕ → Bool) → PeerInfo → Mesh → Mesh
begin_connect dial upgrade peer m =
    let (conn, cs) = dial_addrs dial upgrade peer.addrs m.service.conns in
    record m { service = record m.service { conns = cs }; pending = dialed peer conn ∷ m.pending }

unfoldable pub end_connect : List Pending → PeerInfo → Option ℕ → ℕ → Mesh → Mesh
end_connect rest peer conn now m = record m {
  service = finish_connect peer conn now m.service;
  pending = rest;
}

-- A connection is accepted, and the handshake on it ends.
unfoldable pub accept : Bool → Mesh → Mesh
accept upgrades m =
    let cs = m.service.conns in
    if upgrades
    then record m {
      service = record m.service { conns = open_conn cs };
      pending = accepted cs.next_conn ∷ m.pending;
    }
    else record m {
      service = record m.service { conns = close_conn (some cs.next_conn) (open_conn cs) };
    }

abbrev pub incoming : Bytes → PeerInfo
incoming id = record { id = id; public_key = []; addrs = [] }

-- An accepted connection enters the table, and its read loop is started.
unfoldable pub register_incoming : List Pending → ℕ → Bytes → ℕ → Mesh → Mesh
register_incoming rest c id now m = record m {
  service = register (incoming id) (some c) now m.service;
  pending = rest;
  readers = (id, c) ∷ m.readers;
}

-- A read fails, as it does on a closed connection.
unfoldable pub end_reader : List (Bytes × ℕ) → Bytes → Mesh → Mesh
end_reader rest id m = record m { service = (disconnect id m.service).1; readers = rest }

pub data Step : Mesh → Mesh → Type 0 where
  starts : {m : Mesh} → Step m (with_service m (start m.service))
  stops : {m : Mesh} (waited : Bool) → Step m (with_service m (stop waited m.service).1)
  binds_udp : {m : Mesh} → Step m (with_service m (bind_udp m.service))
  binds_tcp : {m : Mesh} (cancelled : Bool) → Step m (with_service m (bind_tcp cancelled m.service))
  begins_connect :
      {m : Mesh} (dial : ℕ → Bytes → Bool) (upgrade : ℕ → Bool) (peer : PeerInfo)
      → connect_error peer m.service ≡ none
      → Step m (begin_connect dial upgrade peer m)
  ends_connect :
      {m : Mesh} (before after : List Pending) (peer : PeerInfo) (conn : Option ℕ) (now : ℕ)
      → m.pending ≡ before ++ (dialed peer conn ∷ after)
      → Step m (end_connect (before ++ after) peer conn now m)
  accepts : {m : Mesh} (upgrades : Bool) → m.service.tcp_open ≡ true → Step m (accept upgrades m)
  registers :
      {m : Mesh} (before after : List Pending) (c : ℕ) (id : Bytes) (now : ℕ)
      → m.pending ≡ before ++ (accepted c ∷ after)
      → Step m (register_incoming (before ++ after) c id now m)
  reads :
      {m : Mesh} (id : Bytes) (now : ℕ)
      → Step m (with_service m (update_peer_last_seen id now m.service))
  read_fails :
      {m : Mesh} (before after : List (Bytes × ℕ)) (id : Bytes) (c : ℕ)
      → m.readers ≡ before ++ ((id, c) ∷ after)
      → Step m (end_reader (before ++ after) id m)
  disconnects : {m : Mesh} (id : Bytes) → Step m (with_service m (disconnect id m.service).1)
  checks_health :
      {m : Mesh} (clock : Bytes → ℕ) (now : ℕ)
      → Step m (with_service m (health_check clock now m.service))
  counts_peers : {m : Mesh} → Step m (with_service m (count_peers m.service))
  hears :
      {m : Mesh} (msg : GossipMessage) (n now : ℕ)
      → Step m (with_service m (handle_message msg n now m.service))
  shares :
      {m : Mesh} (encode : GossipMessage → Bytes) (reach : Bytes → Bool) (now : ℕ)
      → Step m (with_service m (share encode reach now m.service).1)
  finds_addr : {m : Mesh} (addr : Bytes) → Step m (with_service m (add_listen_addr addr m.service))
  subscribes :
      {m : Mesh} (topic : Bytes)
      → m.service.started ≡ true
      → Step m (with_service m (record m.service { events = (subscribe topic m.service.events).1 }))
  unsubscribes :
      {m : Mesh} (topic : Bytes) (ch : ℕ)
      → Step m
          (with_service m (record m.service { events = unsubscribe topic ch m.service.events }))
  receives :
      {m : Mesh} (ch : ℕ)
      → Step m (with_service m (record m.service { events = (receive ch m.service.events).1 }))

pub data Steps : Mesh → Mesh → Type 0 where
  stay : {m : Mesh} → Steps m m
  next : {m n o : Mesh} → Steps m n → Step n o → Steps m o

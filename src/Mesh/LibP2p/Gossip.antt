-- ===== src/Mesh/LibP2p/Gossip.antt =====
-- The gossip of core/go/internal/mesh/libp2p.go: `gossipListenerLoop`, `gossipLoop`,
-- `performSTUNQuery` and `bootstrapLoop`. The JSON encoding, the sockets and the STUN answer are
-- arguments.
pub mod Discovery
use air_bridge5g.Prelude.{
  ℕ, ◌*◌, Bool, false, ◌||◌, Option, none, some, List, [], ◌∷◌, ◌++◌, Bytes, codes, ltb,
  if◌then◌else◌, length, take,
}
use air_bridge5g.Prelude.Map.{str_eq}
use air_bridge5g.Prelude.Int.{add64}
use air_bridge5g.Mesh.Events.{PeerInfo, DiscoveryEvent, Events, emit_event}
use air_bridge5g.Mesh.LibP2p.{
  MeshStats, MeshError, ConnectedPeer, LibP2pService, connect, update_peer_last_seen,
}

pub record GossipMessage : Type 0 where
  pub version : ℕ
  pub sender : Bytes
  pub known_peers : List Bytes
  pub timestamp : ℕ

unfoldable pub any_addr : Bytes → List Bytes → Bool
any_addr addr [] = false
any_addr addr (a ∷ addrs) = str_eq a addr || any_addr addr addrs

-- The loops that set `found`.
unfoldable pub is_known : Bytes → List (Bytes × ConnectedPeer) → Bool
is_known addr [] = false
is_known addr ((id, p) ∷ m) = any_addr addr p.info.addrs || is_known addr m

abbrev pub discovered : Bytes → DiscoveryEvent
discovered addr = record {
  peer = record { id = codes "discovered-" ++ addr; public_key = []; addrs = addr ∷ [] };
}

-- The loop over `msg.KnownPeers`.
unfoldable pub discover : List (Bytes × ConnectedPeer) → List Bytes → Events → Events
discover m [] ev = ev
discover m (addr ∷ addrs) ev =
    discover m addrs (if is_known addr m then ev else emit_event [] (discovered addr) ev)

unfoldable pub count_message : ℕ → LibP2pService → LibP2pService
count_message n s = record s {
  stats = record s.stats {
    messages_relayed = add64 s.stats.messages_relayed 1;
    bytes_relayed = add64 s.stats.bytes_relayed n;
  };
}

-- A message of n bytes that the listener has decoded.
unfoldable pub handle_message : GossipMessage → ℕ → ℕ → LibP2pService → LibP2pService
handle_message msg n now s =
    if str_eq msg.sender s.node_id
    then s
    else let s1 = count_message n s in
      let s2 = update_peer_last_seen msg.sender now s1 in
      record s2 { events = discover s2.peers msg.known_peers s2.events }

-- A round of the listener: `decode` is `json.Unmarshal`.
unfoldable pub receive_datagram :
    (Bytes → Option GossipMessage) → Bytes → ℕ → LibP2pService → LibP2pService
receive_datagram decode buf now s = elim (decode (take 4096 buf)) [
  | none ↦ s
  | some msg ↦ handle_message msg (length (take 4096 buf)) now s
]

-- The first address of each peer that has one.
unfoldable pub first_addrs : List (Bytes × ConnectedPeer) → List Bytes
first_addrs [] = []
first_addrs ((id, p) ∷ m) =
    let rest = first_addrs m in elim p.info.addrs [ [] ↦ rest | addr ∷ addrs ↦ addr ∷ rest ]

-- The datagrams that are sent: `reach` is whether the dial to an address succeeds.
unfoldable pub datagrams : (Bytes → Bool) → Bytes → List Bytes → List (Bytes × Bytes)
datagrams reach payload [] = []
datagrams reach payload (addr ∷ addrs) =
    let rest = datagrams reach payload addrs in if reach addr then (addr, payload) ∷ rest else rest

-- A tick of `gossipLoop`: `encode` is `json.Marshal`.
unfoldable pub share :
    (GossipMessage → Bytes)
    → (Bytes → Bool)
    → ℕ
    → LibP2pService
    → List (Bytes × Bytes) × LibP2pService
share encode reach now s =
    let addrs = first_addrs s.peers in
    let payload =
      encode (record { version = 1; sender = s.node_id; known_peers = addrs; timestamp = now }) in
    if ltb 0 (length addrs)
    then (datagrams reach payload addrs, count_message (length payload * length addrs) s)
    else ([], s)

-- The callback of `performSTUNQuery` for a public address.
unfoldable pub add_listen_addr : Bytes → LibP2pService → LibP2pService
add_listen_addr addr s = if any_addr addr s.listen_addrs then s else record s {
  listen_addrs = s.listen_addrs ++ (addr ∷ []);
  stats = record s.stats { nat_traversals = add64 s.stats.nat_traversals 1 };
}

-- The public addresses that one STUN query after the other finds.
unfoldable pub add_listen_addrs : List Bytes → LibP2pService → LibP2pService
add_listen_addrs [] s = s
add_listen_addrs (addr ∷ addrs) s = add_listen_addrs addrs (add_listen_addr addr s)

abbrev pub bootstrap_peer : Bytes → PeerInfo
bootstrap_peer addr = record { id = codes "bootstrap-" ++ addr; public_key = []; addrs = addr ∷ [] }

unfoldable pub count_error : Option MeshError → LibP2pService → LibP2pService
count_error none s = s
count_error (some e) s = record s {
  stats = record s.stats { connection_errors = add64 s.stats.connection_errors 1 };
}

-- `bootstrapLoop`: `done addr` is whether the context is done at the round of an address.
unfoldable pub bootstrap :
    (ℕ → Bytes → Bool)
    → (ℕ → Bool)
    → (Bytes → Bool)
    → (Bytes → ℕ)
    → List Bytes
    → LibP2pService
    → LibP2pService
bootstrap dial upgrade done clock [] s = s
bootstrap dial upgrade done clock (addr ∷ addrs) s =
    let (e, s1) = connect dial upgrade (bootstrap_peer addr) (clock addr) s in
    let s2 = bootstrap dial upgrade done clock addrs (count_error e s1) in
    if done addr then s else s2

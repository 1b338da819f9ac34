-- ===== src/Mesh/LibP2p/Table.antt =====
-- The table of peers of core/go/internal/mesh/libp2p.go and tcp_listener.go.
use air_bridge5g.Prelude.{
  ℕ, ◌+◌, ◌≡◌, refl, ◌∙◌, ◌≢◌, ◌⊎◌, inl, inr, Bool, true, false, not, ◌&&◌, Option, none, some,
  List, [], ◌∷◌, ◌++◌, append_assoc, arith, Bytes, if◌then◌else◌, Option-cases, length,
}
use air_bridge5g.Prelude.Map.{str_eq, str_eq_refl, lookup, lookup-insert, lookup-erase}
use air_bridge5g.Mesh.Events.{PeerInfo}
use air_bridge5g.Mesh.LibP2p.{
  not_started, self_connect, ConnectedPeer, Conns, LibP2pService, close_conn, close_existing,
  open_conn, dial_addrs, register, finish_connect, connect_error, connect, disconnect,
}
use air_bridge5g.Mesh.LibP2p.Runs.{
  Pending, accepted, Mesh, incoming, register_incoming, end_reader, registers, read_fails, Steps,
  stay, next,
}

register-lookup :
    (peer : PeerInfo) (conn : Option ℕ) (now : ℕ) (s : LibP2pService)
    → lookup peer.id (register peer conn now s).peers
      ≡ some (record { info = peer; connected_at = now; last_seen = now; conn = conn })
unfolding register
register-lookup peer conn now s =
    lookup-insert peer.id peer.id _ s.peers ∙ rw (str_eq_refl peer.id) refl

disconnect-lookup : (id : Bytes) (s : LibP2pService) → lookup id (disconnect id s).1.peers ≡ none
unfolding disconnect
disconnect-lookup id s = elim (Option-cases (lookup id s.peers)) [
  | inl e ↦ ground arith
  | inr (p, e) ↦ ground (arith, lookup-erase id id s.peers, str_eq_refl id)
]

disconnect-closes :
    (id : Bytes) (c : ℕ) (s : LibP2pService) (p : ConnectedPeer)
    → lookup id s.peers ≡ some p
    → p.conn ≡ some c
    → (disconnect id s).1.conns.closed ≡ c ∷ s.conns.closed
unfolding disconnect close_conn
disconnect-closes id c s p h e = ground arith

register-closes :
    (peer : PeerInfo) (conn : Option ℕ) (now c : ℕ) (s : LibP2pService) (p : ConnectedPeer)
    → lookup peer.id s.peers ≡ some p
    → p.conn ≡ some c
    → (register peer conn now s).conns.closed ≡ c ∷ s.conns.closed
unfolding register close_existing close_conn
register-closes peer conn now c s p h e = ground arith

dial_addrs-unreachable :
    (dial : ℕ → Bytes → Bool) (upgrade : ℕ → Bool) (addrs : List Bytes) (cs : Conns)
    → ((n : ℕ) (addr : Bytes) → dial n addr ≡ false)
    → (dial_addrs dial upgrade addrs cs).0 ≡ none
unfolding dial_addrs
dial_addrs-unreachable dial upgrade [] cs f = refl
dial_addrs-unreachable dial upgrade (addr ∷ addrs) cs f =
    rw (f cs.next_conn addr) (dial_addrs-unreachable dial upgrade addrs cs f)

-- A peer whose new connection is accepted while the read loop of its former one is still there: the
-- new entry closes the former connection, so that its read loop ends with an error, and the
-- `Disconnect` of that loop then removes the new entry and closes the new connection.
pub stale_reader-disconnects :
    (m : Mesh) (waiting waiting' : List Pending) (before after : List (Bytes × ℕ)) (id : Bytes)
    (p : ConnectedPeer) (former c now : ℕ)
    → m.readers ≡ before ++ ((id, former) ∷ after)
    → m.pending ≡ waiting ++ (accepted c ∷ waiting')
    → lookup id m.service.peers ≡ some p
    → p.conn ≡ some former
    → let m1 = register_incoming (waiting ++ waiting') c id now m in
      let m2 = end_reader ((id, c) ∷ (before ++ after)) id m1 in
      Steps m m2
      × (lookup id m1.service.peers
          ≡ some
              (record { info = incoming id; connected_at = now; last_seen = now; conn = some c }))
      × (m1.service.conns.closed ≡ former ∷ m.service.conns.closed)
      × (lookup id m2.service.peers ≡ none)
      × (m2.service.conns.closed ≡ c ∷ m1.service.conns.closed)
unfolding register_incoming end_reader
stale_reader-disconnects m waiting waiting' before after id p former c now e e' h h' =
    let m1 = register_incoming (waiting ++ waiting') c id now m in
    let found = register-lookup (incoming id) (some c) now m.service in
    (
      next (next stay (registers waiting waiting' c id now e'))
          (read_fails ((id, c) ∷ before) after id former (rw e refl)),
      found,
      register-closes (incoming id) (some c) now former m.service p h h',
      disconnect-lookup id m1.service,
      disconnect-closes id c m1.service _ found refl,
    )

-- The table behind `Connect`, in the terms of the code.
pub connect-table :
    (dial : ℕ → Bytes → Bool) (upgrade : ℕ → Bool) (peer : PeerInfo) (now : ℕ) (s : LibP2pService)
    (j : Bytes)
    → let (e, s') = connect dial upgrade peer now s in
      let conn = (dial_addrs dial upgrade peer.addrs s.conns).0 in
      (e ≡ (
        if s.started
        then (if str_eq peer.id s.node_id then some self_connect else none)
        else some not_started))
      × (e ≢ none → s' ≡ s)
      × (e ≡ none
          → lookup j s'.peers ≡ (
              if str_eq peer.id j
              then some (record { info = peer; connected_at = now; last_seen = now; conn = conn })
              else lookup j s.peers))
      × (((n : ℕ) (addr : Bytes) → dial n addr ≡ false) → conn ≡ none)
unfolding connect connect_error finish_connect register
connect-table dial upgrade peer now s j =
    let entry : ConnectedPeer = record {
      info = peer;
      connected_at = now;
      last_seen = now;
      conn = (dial_addrs dial upgrade peer.addrs s.conns).0;
    } in
    (
      ground arith,
      ground arith,
      ground (arith, lookup-insert peer.id j entry s.peers),
      λ f. dial_addrs-unreachable dial upgrade peer.addrs s.conns f,
    )

-- The connection of the first address that is reached and whose handshake succeeds, where the next
-- one that is made has the number n: each address that is reached takes a number.
unfoldable pub first_secured : (ℕ → Bytes → Bool) → (ℕ → Bool) → ℕ → List Bytes → Option ℕ
first_secured dial upgrade n [] = none
first_secured dial upgrade n (addr ∷ addrs) =
    let next_unreached = first_secured dial upgrade n addrs in
    let next_refused = first_secured dial upgrade (n + 1) addrs in
    if dial n addr then (if upgrade n then some n else next_refused) else next_unreached

-- The connections that are made before it, whose handshakes fail, the last one first.
unfoldable pub refused : (ℕ → Bytes → Bool) → (ℕ → Bool) → ℕ → List Bytes → List ℕ
refused dial upgrade n [] = []
refused dial upgrade n (addr ∷ addrs) =
    let next_unreached = refused dial upgrade n addrs in
    let next_refused = refused dial upgrade (n + 1) addrs in
    if dial n addr then (if upgrade n then [] else next_refused ++ (n ∷ [])) else next_unreached

dial_addrs-first_secured :
    (dial : ℕ → Bytes → Bool) (upgrade : ℕ → Bool) (addrs : List Bytes) (cs : Conns)
    → let (conn, cs') = dial_addrs dial upgrade addrs cs in
      (conn ≡ first_secured dial upgrade cs.next_conn addrs)
      × (cs'.closed ≡ refused dial upgrade cs.next_conn addrs ++ cs.closed)
unfolding dial_addrs first_secured refused open_conn close_conn
dial_addrs-first_secured dial upgrade [] cs = (refl, refl)
dial_addrs-first_secured dial upgrade (addr ∷ addrs) cs =
    let n = cs.next_conn in
    let u = dial_addrs-first_secured dial upgrade addrs cs in
    let r = dial_addrs-first_secured dial upgrade addrs (close_conn (some n) (open_conn cs)) in
    (
      ground (arith, u.0, r.0),
      ground
          (arith, u.1, r.1, append_assoc (refused dial upgrade (n + 1) addrs) (n ∷ []) cs.closed),
    )

-- The connection of an entry that was there before.
abbrev pub former_conn : Option ConnectedPeer → List ℕ
former_conn none = []
former_conn (some p) = elim p.conn [ none ↦ [] | some c ↦ c ∷ [] ]

close_existing-former_conn :
    (p : Option ConnectedPeer) (cs : Conns)
    → (close_existing p cs).closed ≡ former_conn p ++ cs.closed
unfolding close_existing close_conn
close_existing-former_conn none cs = refl
close_existing-former_conn (some p) cs = ground arith

first_secured-unreachable :
    (dial : ℕ → Bytes → Bool) (upgrade : ℕ → Bool) (n : ℕ) (addrs : List Bytes)
    → ((m : ℕ) (addr : Bytes) → dial m addr ≡ false)
    → first_secured dial upgrade n addrs ≡ none
unfolding first_secured
first_secured-unreachable dial upgrade n [] f = refl
first_secured-unreachable dial upgrade n (addr ∷ addrs) f =
    rw (f n addr) (first_secured-unreachable dial upgrade n addrs f)

-- What `Connect` answers, and the service behind it. It answers an error when the service is not
-- started or the peer is this node, and then changes nothing. Else it answers nil, and the peer has
-- an entry with the connection of the first of its addresses that is reached and whose handshake
-- succeeds, or with no connection where there is none, as when no dial succeeds; no other entry
-- changes. The connections that are closed are those whose handshakes have failed and the one that a
-- former entry of the peer had, and the number of connected peers is that of the table's entries.
pub connect-registers :
    (dial : ℕ → Bytes → Bool) (upgrade : ℕ → Bool) (peer : PeerInfo) (now : ℕ) (s : LibP2pService)
    (j : Bytes)
    → let (e, s') = connect dial upgrade peer now s in
      let n = s.conns.next_conn in
      let conn = first_secured dial upgrade n peer.addrs in
      let connects = s.started && not (str_eq peer.id s.node_id) in
      (e ≡ (
        if s.started
        then (if str_eq peer.id s.node_id then some self_connect else none)
        else some not_started))
      × ((connects ≡ true) ⊎ (s' ≡ s))
      × (lookup j s'.peers ≡ (
          if connects && str_eq peer.id j
          then some (record { info = peer; connected_at = now; last_seen = now; conn = conn })
          else lookup j s.peers))
      × (s'.conns.closed ≡ (
          if connects
          then former_conn (lookup peer.id s.peers)
            ++ (refused dial upgrade n peer.addrs ++ s.conns.closed)
          else s.conns.closed))
      × (s'.stats.connected_peers ≡ (if connects then length s'.peers else s.stats.connected_peers))
      × (((m : ℕ) (addr : Bytes) → dial m addr ≡ false) → conn ≡ none)
unfolding connect connect_error finish_connect register
connect-registers dial upgrade peer now s j =
    let cs = (dial_addrs dial upgrade peer.addrs s.conns).1 in
    let d = dial_addrs-first_secured dial upgrade peer.addrs s.conns in
    let c = close_existing-former_conn (lookup peer.id s.peers) cs in
    let entry : ConnectedPeer = record {
      info = peer;
      connected_at = now;
      last_seen = now;
      conn = (dial_addrs dial upgrade peer.addrs s.conns).0;
    } in
    (
      ground arith,
      ground arith,
      ground (arith, d.0, lookup-insert peer.id j entry s.peers),
      ground (arith, d.1, c),
      ground arith,
      λ f. first_secured-unreachable dial upgrade s.conns.next_conn peer.addrs f,
    )

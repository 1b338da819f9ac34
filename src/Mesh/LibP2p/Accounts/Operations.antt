-- ===== src/Mesh/LibP2p/Accounts/Operations.antt =====
-- What each operation of core/go/internal/mesh/libp2p.go and tcp_listener.go does to the places of
-- the connections.
use air_bridge5g.Prelude.{
  ℕ, ◌+◌, ◌≡◌, refl, inl, inr, Bool, true, false, Option, some, List, [], ◌∷◌, ◌++◌, arith, Bytes,
  Bool-cases,
}
use air_bridge5g.Prelude.Map.{str_eq}
use air_bridge5g.Prelude.Totals.{count, count_option, IsMap}
use air_bridge5g.Mesh.Events.{PeerInfo}
use air_bridge5g.Mesh.LibP2p.{
  LibP2pService, close_conn, open_conn, register, finish_connect, disconnect, stop,
  update_peer_last_seen,
}
use air_bridge5g.Mesh.LibP2p.Health.{health_check, check_peers-IsMap, erase_all-IsMap}
use air_bridge5g.Mesh.LibP2p.Gossip.{GossipMessage, count_message, handle_message}
use air_bridge5g.Mesh.LibP2p.Runs.{
  Pending, dialed, accepted, Mesh, with_service, begin_connect, end_connect, accept,
}
use air_bridge5g.Mesh.LibP2p.Accounts.{
  IsFresh, balance, open_conn-IsFresh, dial_addrs-count, dial_addrs-IsFresh, register-balance,
  disconnect-balance, update_peer_last_seen-balance, stop-balance, health_check-balance,
  register-IsMap, disconnect-IsMap, stop-IsMap, update-IsMap, register-conns, disconnect-conns,
  stop-conns, update-conns,
}

abbrev pub pending_conn : Pending → Option ℕ
pending_conn (dialed peer conn) = conn
pending_conn (accepted c) = some c

-- How often a connection is on its way into the table.
abbrev pub in_pending : ℕ → List Pending → ℕ
in_pending n [] = 0
in_pending n (p ∷ ps) = count_option n (pending_conn p) + in_pending n ps

in_pending-append :
    (n : ℕ) (xs ys : List Pending) → in_pending n (xs ++ ys) ≡ in_pending n xs + in_pending n ys
in_pending-append n [] ys = omega arith
in_pending-append n (x ∷ xs) ys = omega (arith, in_pending-append n xs ys)

pub in_pending-take :
    (n : ℕ) (before after : List Pending) (p : Pending) (all : List Pending)
    → all ≡ before ++ (p ∷ after)
    → in_pending n all ≡ in_pending n (before ++ after) + count_option n (pending_conn p)
in_pending-take n before after p all e =
    rw e (omega (arith, in_pending-append n before after, in_pending-append n before (p ∷ after)))

-- The table has distinct keys, no connection is made twice, and each one that was made stands in
-- one place.
pub record IsAccounted (m : Mesh) : Type 0 where
  pub is_map : IsMap m.service.peers
  pub is_fresh : IsFresh m.service.conns
  pub placed :
      (n : ℕ) → balance n m.service + in_pending n m.pending ≡ count n m.service.conns.opened

-- For an operation that makes no connection.
pub keeps :
    (m : Mesh) (s : LibP2pService)
    → IsAccounted m
    → IsMap s.peers
    → ((n : ℕ) → balance n s ≡ balance n m.service)
    → s.conns.opened ≡ m.service.conns.opened
    → s.conns.next_conn ≡ m.service.conns.next_conn
    → IsAccounted (with_service m s)
keeps m s v h b o e = record {
  is_map = h;
  is_fresh = λ n. ground (arith, v.is_fresh n);
  placed = λ n. ground (arith, v.placed n, b n);
}

pub begin_connect-IsAccounted :
    (dial : ℕ → Bytes → Bool) (upgrade : ℕ → Bool) (peer : PeerInfo) (m : Mesh)
    → IsAccounted m
    → IsAccounted (begin_connect dial upgrade peer m)
unfolding begin_connect
begin_connect-IsAccounted dial upgrade peer m v = record {
  is_map = v.is_map;
  is_fresh = dial_addrs-IsFresh dial upgrade peer.addrs m.service.conns v.is_fresh;
  placed =
      λ n. ground (arith, v.placed n, dial_addrs-count dial upgrade peer.addrs m.service.conns n);
}

-- A connection goes from the pending ones into the table.
pub register-IsAccounted :
    (rest : List Pending) (peer : PeerInfo) (conn : Option ℕ) (now : ℕ) (m : Mesh)
    → IsAccounted m
    → ((n : ℕ) → in_pending n m.pending ≡ in_pending n rest + count_option n conn)
    → IsAccounted (record m { service = register peer conn now m.service; pending = rest })
register-IsAccounted rest peer conn now m v e = record {
  is_map = register-IsMap peer conn now m.service v.is_map;
  is_fresh = λ n. ground (arith, v.is_fresh n, register-conns peer conn now m.service);
  placed = λ n. ground (
    arith,
    v.placed n,
    e n,
    register-balance peer conn now n m.service,
    register-conns peer conn now m.service,
  );
}

pub accept-IsAccounted :
    (upgrades : Bool) (m : Mesh) → IsAccounted m → IsAccounted (accept upgrades m)
unfolding accept open_conn close_conn
accept-IsAccounted true m v = record {
  is_map = v.is_map;
  is_fresh = open_conn-IsFresh m.service.conns v.is_fresh;
  placed = λ n. ground (arith, v.placed n);
}
accept-IsAccounted false m v = record {
  is_map = v.is_map;
  is_fresh = open_conn-IsFresh m.service.conns v.is_fresh;
  placed = λ n. ground (arith, v.placed n);
}

pub disconnect-IsAccounted :
    (id : Bytes) (m : Mesh)
    → IsAccounted m
    → IsAccounted (with_service m (disconnect id m.service).1)
disconnect-IsAccounted id m v =
    let c = disconnect-conns id m.service in
    keeps m (disconnect id m.service).1 v (disconnect-IsMap id m.service v.is_map)
      (λ n. disconnect-balance id n m.service v.is_map) c.0 c.1

pub stop-IsAccounted :
    (waited : Bool) (m : Mesh)
    → IsAccounted m
    → IsAccounted (with_service m (stop waited m.service).1)
stop-IsAccounted waited m v =
    let c = stop-conns waited m.service in
    keeps m (stop waited m.service).1 v (stop-IsMap waited m.service v.is_map)
      (λ n. stop-balance waited n m.service) c.0 c.1

pub update-IsAccounted :
    (id : Bytes) (now : ℕ) (m : Mesh)
    → IsAccounted m
    → IsAccounted (with_service m (update_peer_last_seen id now m.service))
update-IsAccounted id now m v =
    let c = update-conns id now m.service in
    keeps m (update_peer_last_seen id now m.service) v (update-IsMap id now m.service v.is_map)
      (λ n. update_peer_last_seen-balance id now n m.service) c.0 c.1

pub health_check-IsAccounted :
    (clock : Bytes → ℕ) (now : ℕ) (m : Mesh)
    → IsAccounted m
    → IsAccounted (with_service m (health_check clock now m.service))
unfolding health_check
health_check-IsAccounted clock now m v =
    keeps m (health_check clock now m.service) v
      (erase_all-IsMap _ _ (check_peers-IsMap clock now m.service.peers v.is_map))
      (λ n. health_check-balance clock now n m.service v.is_map) refl refl

-- What is heard changes the table as `update_peer_last_seen` does.
pub hears-IsAccounted :
    (msg : GossipMessage) (n now : ℕ) (m : Mesh)
    → IsAccounted m
    → IsAccounted (with_service m (handle_message msg n now m.service))
unfolding handle_message count_message
hears-IsAccounted msg n now m v = elim (Bool-cases (str_eq msg.sender m.service.node_id)) [
  | inl e ↦ rw (e) record { is_map = v.is_map; is_fresh = v.is_fresh; placed = v.placed }
  | inr e ↦ rw (e) (
      let r =
        update-IsAccounted msg.sender now (with_service m (count_message n m.service))
          (record { is_map = v.is_map; is_fresh = v.is_fresh; placed = v.placed }) in
      record { is_map = r.is_map; is_fresh = r.is_fresh; placed = r.placed })
]

pub end_connect-IsAccounted :
    (before after : List Pending) (peer : PeerInfo) (conn : Option ℕ) (now : ℕ) (m : Mesh)
    → m.pending ≡ before ++ (dialed peer conn ∷ after)
    → IsAccounted m
    → IsAccounted (end_connect (before ++ after) peer conn now m)
unfolding end_connect finish_connect
end_connect-IsAccounted before after peer conn now m e v =
    let r =
      register-IsAccounted (before ++ after) peer conn now m v
        (λ n. in_pending-take n before after (dialed peer conn) m.pending e) in
    record { is_map = r.is_map; is_fresh = r.is_fresh; placed = r.placed }

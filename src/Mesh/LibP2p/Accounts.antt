-- ===== src/Mesh/LibP2p/Accounts.antt =====
-- Where the connections of core/go/internal/mesh/libp2p.go are, operation by operation.
pub mod Operations
pub mod Invariant
use air_bridge5g.Prelude.{
  ℕ, ◌+◌, ◌≤◌, ◌≡◌, inl, inr, Bool, Option, some, List, [], ◌∷◌, arith, Bytes, ltb, if◌then◌else◌,
  Bool-cases, Option-cases,
}
use air_bridge5g.Prelude.Map.{str_eq, str_eq_iff, str_eq_refl, lookup, insert, erase}
use air_bridge5g.Prelude.Totals.{
  count, count-append, count_option, IsMap, total, weight, total-insert, total-erase, insert-IsMap,
  erase-IsMap,
}
use air_bridge5g.Mesh.Events.{PeerInfo}
use air_bridge5g.Mesh.LibP2p.{
  ConnectedPeer, Conns, LibP2pService, close_conn, open_conn, close_peers, close_existing,
  dial_addrs, register, disconnect, stop, update_peer_last_seen,
}
use air_bridge5g.Mesh.LibP2p.Health.{
  health_check, holds, health_check-total, check_peers-IsMap, erase_all-IsMap,
}

abbrev pub Peers : Type 0
Peers = List (Bytes × ConnectedPeer)

-- How often a connection stands in the table.
abbrev pub in_table : ℕ → Peers → ℕ
in_table n m = total (holds n) m

-- Connections that are not made yet are not opened, and none is opened twice.
abbrev pub IsFresh : Conns → Type 0
IsFresh cs = (n : ℕ) → count n cs.opened ≤ (if ltb n cs.next_conn then 1 else 0)

-- The places of a connection that the service has.
abbrev pub balance : ℕ → LibP2pService → ℕ
balance n s = in_table n s.peers + count n s.conns.closed

pub close_peers-count :
    (n : ℕ) (m : Peers) (cs : Conns)
    → (count n (close_peers m cs).closed ≡ in_table n m + count n cs.closed)
      × ((close_peers m cs).opened ≡ cs.opened)
      × ((close_peers m cs).next_conn ≡ cs.next_conn)
unfolding close_peers close_conn
close_peers-count n [] cs = ground arith
close_peers-count n ((id, p) ∷ m) cs = ground (arith, close_peers-count n m (close_conn p.conn cs))

pub open_conn-IsFresh : (cs : Conns) → IsFresh cs → IsFresh (open_conn cs)
unfolding open_conn
open_conn-IsFresh cs f = λ n. ground (arith, f n)

pub close_conn-IsFresh : (c : ℕ) (cs : Conns) → IsFresh cs → IsFresh (close_conn (some c) cs)
unfolding close_conn
close_conn-IsFresh c cs f = f

-- The connections that the dials make are the one that is returned and closed ones.
pub dial_addrs-count :
    (dial : ℕ → Bytes → Bool) (upgrade : ℕ → Bool) (addrs : List Bytes) (cs : Conns) (n : ℕ)
    → let (conn, cs') = dial_addrs dial upgrade addrs cs in
      count n cs'.closed + count_option n conn + count n cs.opened
      ≡ count n cs.closed + count n cs'.opened
unfolding dial_addrs open_conn close_conn
dial_addrs-count dial upgrade [] cs n = ground arith
dial_addrs-count dial upgrade (addr ∷ addrs) cs n = ground (
  arith,
  dial_addrs-count dial upgrade addrs cs n,
  dial_addrs-count dial upgrade addrs (close_conn (some cs.next_conn) (open_conn cs)) n,
)

pub dial_addrs-IsFresh :
    (dial : ℕ → Bytes → Bool) (upgrade : ℕ → Bool) (addrs : List Bytes) (cs : Conns)
    → IsFresh cs
    → IsFresh (dial_addrs dial upgrade addrs cs).1
unfolding dial_addrs
dial_addrs-IsFresh dial upgrade [] cs f = f
dial_addrs-IsFresh dial upgrade (addr ∷ addrs) cs f = elim (Bool-cases (dial cs.next_conn addr)) [
  | inl e ↦ elim (Bool-cases (upgrade cs.next_conn)) [
    | inl e' ↦ rw (e, e') (open_conn-IsFresh cs f)
    | inr e' ↦
        rw (e, e')
          (dial_addrs-IsFresh dial upgrade addrs (close_conn (some cs.next_conn) (open_conn cs))
            (close_conn-IsFresh cs.next_conn (open_conn cs) (open_conn-IsFresh cs f)))
  ]
  | inr e ↦ rw e (dial_addrs-IsFresh dial upgrade addrs cs f)
]

pub register-balance :
    (peer : PeerInfo) (conn : Option ℕ) (now n : ℕ) (s : LibP2pService)
    → balance n (register peer conn now s) ≡ balance n s + count_option n conn
unfolding register close_existing close_conn
register-balance peer conn now n s = ground (
  arith,
  total-insert (holds n) peer.id
      (record { info = peer; connected_at = now; last_seen = now; conn = conn }) s.peers,
)

pub disconnect-balance :
    (id : Bytes) (n : ℕ) (s : LibP2pService)
    → IsMap s.peers
    → balance n (disconnect id s).1 ≡ balance n s
unfolding disconnect close_conn
disconnect-balance id n s h = ground (arith, total-erase (holds n) id s.peers h)

pub update_peer_last_seen-balance :
    (id : Bytes) (now n : ℕ) (s : LibP2pService)
    → balance n (update_peer_last_seen id now s) ≡ balance n s
unfolding update_peer_last_seen
update_peer_last_seen-balance id now n s = elim (Option-cases (lookup id s.peers)) [
  | inl e ↦ ground arith
  | inr (p, e) ↦ ground (arith, total-insert (holds n) id (record p { last_seen = now }) s.peers)
]

pub stop-balance :
    (waited : Bool) (n : ℕ) (s : LibP2pService) → balance n (stop waited s).1 ≡ balance n s
unfolding stop
stop-balance waited n s = ground (arith, close_peers-count n s.peers s.conns)

pub health_check-balance :
    (clock : Bytes → ℕ) (now n : ℕ) (s : LibP2pService)
    → IsMap s.peers
    → balance n (health_check clock now s) ≡ balance n s
unfolding health_check
health_check-balance clock now n s h = omega (arith, health_check-total n clock now s h)

pub register-IsMap :
    (peer : PeerInfo) (conn : Option ℕ) (now : ℕ) (s : LibP2pService)
    → IsMap s.peers
    → IsMap (register peer conn now s).peers
unfolding register
register-IsMap peer conn now s h = insert-IsMap peer.id _ s.peers h

pub disconnect-IsMap :
    (id : Bytes) (s : LibP2pService) → IsMap s.peers → IsMap (disconnect id s).1.peers
unfolding disconnect
disconnect-IsMap id s h = ground (arith, erase-IsMap id s.peers h)

pub stop-IsMap : (waited : Bool) (s : LibP2pService) → IsMap s.peers → IsMap (stop waited s).1.peers
unfolding stop
stop-IsMap waited s h = ground arith

pub update-IsMap :
    (id : Bytes) (now : ℕ) (s : LibP2pService)
    → IsMap s.peers
    → IsMap (update_peer_last_seen id now s).peers
unfolding update_peer_last_seen
update-IsMap id now s h = elim (Option-cases (lookup id s.peers)) [
  | inl e ↦ ground arith
  | inr (p, e) ↦ ground (arith, insert-IsMap id (record p { last_seen = now }) s.peers h)
]

abbrev pub SameConns : LibP2pService → LibP2pService → Type 0
SameConns s' s = (s'.conns.opened ≡ s.conns.opened) × (s'.conns.next_conn ≡ s.conns.next_conn)

pub disconnect-conns : (id : Bytes) (s : LibP2pService) → SameConns (disconnect id s).1 s
unfolding disconnect close_conn
disconnect-conns id s = ground arith

pub stop-conns : (waited : Bool) (s : LibP2pService) → SameConns (stop waited s).1 s
unfolding stop
stop-conns waited s = ground (arith, close_peers-count 0 s.peers s.conns)

pub update-conns :
    (id : Bytes) (now : ℕ) (s : LibP2pService) → SameConns (update_peer_last_seen id now s) s
unfolding update_peer_last_seen
update-conns id now s = ground arith

pub register-conns :
    (peer : PeerInfo) (conn : Option ℕ) (now : ℕ) (s : LibP2pService)
    → let cs = (register peer conn now s).conns in
      (cs.opened ≡ s.conns.opened) × (cs.next_conn ≡ s.conns.next_conn)
unfolding register close_existing close_conn
register-conns peer conn now s = ground arith

-- ===== src/Mesh/LibP2p/Health.antt =====
-- `peerHealthLoop` and `peerCountMetricsLoop` of core/go/internal/mesh/libp2p.go.
use air_bridge5g.Prelude.{
  ℕ, ◌+◌, ◌≡◌, refl, ◌∙◌, Bool, true, false, ◌||◌, Option, none, some, List, [], ◌∷◌, arith, Bytes,
  ltb, if◌then◌else◌, length,
}
use air_bridge5g.Prelude.Map.{str_eq, str_eq_iff, str_eq_refl, lookup, erase, lookup-erase}
use air_bridge5g.Prelude.Totals.{IsMap, total, weight, total-erase, erase-IsMap, count_option}
use air_bridge5g.Mesh.LibP2p.{ConnectedPeer, LibP2pService}

-- 60 * time.Second
abbrev pub timeout : ℕ
timeout = 60_000_000_000

-- A round of `peerHealthLoop` over the peers: `clock id` is the reading at the round of a peer.
-- Peers that are seen, and the identities that are stale.
unfoldable pub check_peers :
    (Bytes → ℕ) → ℕ → List (Bytes × ConnectedPeer) → List (Bytes × ConnectedPeer) × List Bytes
check_peers clock now [] = ([], [])
check_peers clock now ((id, p) ∷ m) =
    let (m', stale) = check_peers clock now m in
    elim p.conn [
      | some c ↦ ((id, record p { last_seen = clock id }) ∷ m', stale)
      | none ↦ ((id, p) ∷ m', if ltb (p.last_seen + timeout) now then id ∷ stale else stale)
    ]

unfoldable pub erase_all : List Bytes → List (Bytes × ConnectedPeer) → List (Bytes × ConnectedPeer)
erase_all [] m = m
erase_all (id ∷ ids) m = erase_all ids (erase id m)

unfoldable pub health_check : (Bytes → ℕ) → ℕ → LibP2pService → LibP2pService
health_check clock now s =
    let (m, stale) = check_peers clock now s.peers in
    record s {
      peers = erase_all stale m;
      stats = record s.stats { connected_peers = length (erase_all stale m) };
    }

-- A tick of `peerCountMetricsLoop`.
unfoldable pub count_peers : LibP2pService → LibP2pService
count_peers s = record s { stats = record s.stats { discovered_peers = length s.peers } }

-- What a round makes of an entry, by itself: a peer with a connection is seen at the reading of its
-- round, and one with none stays as it is up to the timeout.
unfoldable pub survives : ℕ → ℕ → Option ConnectedPeer → Option ConnectedPeer
survives seen now none = none
survives seen now (some p) = elim p.conn [
  | some c ↦ some (record p { last_seen = seen })
  | none ↦ if ltb (p.last_seen + timeout) now then none else some p
]

unfoldable any_id : Bytes → List Bytes → Bool
any_id id [] = false
any_id id (j ∷ ids) = str_eq j id || any_id id ids

lookup-erase_all :
    (id : Bytes) (ids : List Bytes) (m : List (Bytes × ConnectedPeer))
    → lookup id (erase_all ids m) ≡ (if any_id id ids then none else lookup id m)
unfolding erase_all any_id
lookup-erase_all id [] m = refl
lookup-erase_all id (j ∷ ids) m =
    ground (arith, lookup-erase_all id ids (erase j m), lookup-erase j id m)

check_peers-none :
    (clock : Bytes → ℕ) (now : ℕ) (id : Bytes) (m : List (Bytes × ConnectedPeer))
    → lookup id m ≡ none
    → any_id id (check_peers clock now m).1 ≡ false
unfolding check_peers any_id lookup
check_peers-none clock now id [] h = refl
check_peers-none clock now id ((j, p) ∷ m) h = ground (arith, check_peers-none clock now id m)

check_peers-absent :
    (clock : Bytes → ℕ) (now : ℕ) (id : Bytes) (m : List (Bytes × ConnectedPeer))
    → lookup id m ≡ none
    → lookup id (check_peers clock now m).0 ≡ none
unfolding check_peers lookup
check_peers-absent clock now id [] h = refl
check_peers-absent clock now id ((j, p) ∷ m) h = ground (arith, check_peers-absent clock now id m)

check_peers-lookup :
    (clock : Bytes → ℕ) (now : ℕ) (id : Bytes) (m : List (Bytes × ConnectedPeer))
    → IsMap m
    → let (m', stale) = check_peers clock now m in
      (if any_id id stale then none else lookup id m') ≡ survives (clock id) now (lookup id m)
unfolding check_peers any_id survives lookup
check_peers-lookup clock now id [] h = refl
check_peers-lookup clock now id ((j, p) ∷ m) h =
    ground (
      arith,
      check_peers-lookup clock now id m h.1,
      str_eq_iff j id,
      check_peers-none clock now id m,
    )

-- A round of `peerHealthLoop` collects the stale peers in one pass over the map and deletes them in
-- another; on a map with distinct keys that is, for each identity, the same as one decision on its
-- entry alone: a peer with a connection stays and is seen at its reading of the clock, a peer with
-- none goes when it was last seen more than 60 seconds ago and else stays as it is. The counter of
-- connected peers is then the size of the map.
pub health_check-survives :
    (clock : Bytes → ℕ) (now : ℕ) (id : Bytes) (s : LibP2pService)
    → IsMap s.peers
    → let s' = health_check clock now s in
      (lookup id s'.peers ≡ survives (clock id) now (lookup id s.peers))
      × (s'.stats.connected_peers ≡ length s'.peers)
unfolding health_check
health_check-survives clock now id s h = (
  lookup-erase_all id (check_peers clock now s.peers).1 (check_peers clock now s.peers).0
      ∙ check_peers-lookup clock now id s.peers h,
  refl,
)

pub check_peers-IsMap :
    (clock : Bytes → ℕ) (now : ℕ) (m : List (Bytes × ConnectedPeer))
    → IsMap m
    → IsMap (check_peers clock now m).0
unfolding check_peers
check_peers-IsMap clock now [] h = h
check_peers-IsMap clock now ((id, p) ∷ m) h =
    ground (arith, check_peers-IsMap clock now m h.1, check_peers-absent clock now id m)

pub erase_all-IsMap :
    (ids : List Bytes) (m : List (Bytes × ConnectedPeer)) → IsMap m → IsMap (erase_all ids m)
unfolding erase_all
erase_all-IsMap [] m h = h
erase_all-IsMap (id ∷ ids) m h = erase_all-IsMap ids (erase id m) (erase-IsMap id m h)

module _ (n : ℕ) where
  -- Whether a peer holds connection n.
  abbrev pub holds : ConnectedPeer → ℕ
  holds p = count_option n p.conn

  erase_all-total :
      (ids : List Bytes) (m : List (Bytes × ConnectedPeer))
      → IsMap m
      → ((id : Bytes) → any_id id ids ≡ true → weight holds (lookup id m) ≡ 0)
      → total holds (erase_all ids m) ≡ total holds m
  unfolding erase_all any_id
  erase_all-total [] m h z = refl
  erase_all-total (id ∷ ids) m h z =
      let none_id = z id (ground (arith, str_eq_refl id)) in
      let rest =
        erase_all-total ids (erase id m) (erase-IsMap id m h)
          (λ j e. ground (arith, z j, lookup-erase id j m)) in
      omega (arith, rest, total-erase holds id m h)

  check_peers-weight :
      (clock : Bytes → ℕ) (now : ℕ) (id : Bytes) (m : List (Bytes × ConnectedPeer))
      → IsMap m
      → any_id id (check_peers clock now m).1 ≡ true
      → weight holds (lookup id (check_peers clock now m).0) ≡ 0
  unfolding check_peers any_id lookup
  check_peers-weight clock now id [] h e = refl
  check_peers-weight clock now id ((j, p) ∷ m) h e = ground (
    arith,
    check_peers-weight clock now id m h.1,
    str_eq_iff j id,
    check_peers-none clock now id m,
  )

  check_peers-total :
      (clock : Bytes → ℕ) (now : ℕ) (m : List (Bytes × ConnectedPeer))
      → total holds (check_peers clock now m).0 ≡ total holds m
  unfolding check_peers
  check_peers-total clock now [] = refl
  check_peers-total clock now ((id, p) ∷ m) = ground (arith, check_peers-total clock now m)

  pub health_check-total :
      (clock : Bytes → ℕ) (now : ℕ) (s : LibP2pService)
      → IsMap s.peers
      → total holds (health_check clock now s).peers ≡ total holds s.peers
  unfolding health_check
  health_check-total clock now s h =
      erase_all-total (check_peers clock now s.peers).1 (check_peers clock now s.peers).0
        (check_peers-IsMap clock now s.peers h) (λ id. check_peers-weight clock now id s.peers h)
      ∙ check_peers-total clock now s.peers

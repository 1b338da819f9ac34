-- ===== src/Mesh/PeerManager/Status.antt =====
-- The life of a peer in core/go/internal/mesh/peer_manager.go.
use air_bridge5g.Prelude.{
  ℕ, ◌+◌, ◌≤◌, ◌<◌, min, ◌≡◌, false, none, some, arith, Bytes, ltb, if◌then◌else◌,
}
use air_bridge5g.Prelude.Int.{ℤ, pos, negsuc, pos_part}
use air_bridge5g.Prelude.Map.{str_eq, str_eq_iff, str_eq_refl, lookup-insert, lookup-erase}
use air_bridge5g.Mesh.PeerManager.{
  PeerStatus, peer_active, peer_blocked, peer_kicked, PeerManager, kick_peer, unblock_peer,
  get_peer_status, clamp_trust, set_trust_level, get_trust_level,
}

-- What `GetPeerStatus` answers at a time.
abbrev pub status_at : PeerManager → Bytes → ℕ → PeerStatus
status_at pm id now = (get_peer_status pm id now).1

-- A peer that is kicked with a positive ban is blocked up to the end of the ban and only kicked from
-- then on, at every later time; no other peer's status changes; and the callback, if there is one,
-- is started for the peer.
pub kick_peer-status :
    (pm : PeerManager) (id : Bytes) (ban now now' : ℕ)
    → 0 < ban
    → let (pm', called) = kick_peer pm id (pos ban) now now' in
      ((t : ℕ) → status_at pm' id t ≡ (if ltb (now' + ban) t then peer_kicked else peer_blocked))
      × ((j : Bytes) (t : ℕ) → str_eq id j ≡ false → status_at pm' j t ≡ status_at pm j t)
      × (called ≡ (if pm.on_kick then some id else none))
unfolding kick_peer get_peer_status
kick_peer-status pm id ban now now' h = (
  λ t. ground (
    arith,
    str_eq_refl id,
    lookup-insert id id now pm.kicked,
    lookup-insert id id (now' + ban) pm.blocked,
  ),
  λ j t ne.
      ground (arith, lookup-insert id j now pm.kicked, lookup-insert id j (now' + ban) pm.blocked),
  ground arith,
)

-- An unblocked peer is active at every time, whatever was done to it before, and no other peer's
-- status changes.
pub unblock_peer-status :
    (pm : PeerManager) (id j : Bytes) (t : ℕ)
    → status_at (unblock_peer pm id) j t ≡ (if str_eq id j then peer_active else status_at pm j t)
unfolding unblock_peer get_peer_status
unblock_peer-status pm id j t =
    ground (arith, lookup-erase id j pm.blocked, lookup-erase id j pm.kicked)

-- The entry that a query drops has run out: at no later time does it change what any query answers.
pub get_peer_status-stable :
    (pm : PeerManager) (id j : Bytes) (t t' : ℕ)
    → t ≤ t'
    → status_at (get_peer_status pm id t).0 j t' ≡ status_at pm j t'
unfolding get_peer_status
get_peer_status-stable pm id j t t' h =
    ground (arith, lookup-erase id j pm.blocked, str_eq_iff id j)

clamp_trust_lem : (level : ℤ) → pos_part (clamp_trust level) ≡ min 100 (pos_part level)
unfolding clamp_trust
clamp_trust_lem (pos n) = ground arith
clamp_trust_lem (negsuc n) = ground arith

-- The trust that is set is clamped to 0..100 and read back for its peer alone, and the others keep
-- theirs.
pub set_trust_level-get :
    (pm : PeerManager) (id j : Bytes) (level : ℤ)
    → get_trust_level (set_trust_level pm id level) j
      ≡ (if str_eq id j then min 100 (pos_part level) else get_trust_level pm j)
unfolding set_trust_level get_trust_level
set_trust_level-get pm id j level =
    ground (
      arith,
      clamp_trust_lem level,
      lookup-insert id j (pos_part (clamp_trust level)) pm.trust_level,
    )

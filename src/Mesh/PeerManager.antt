-- ===== src/Mesh/PeerManager.antt =====
-- core/go/internal/mesh/peer_manager.go. Times are numbers of nanoseconds, and each call of
-- `time.Now()` is an argument; the mutex makes every method one step.
pub mod Status
use air_bridge5g.Prelude.{
  ℕ, ◌+◌, ◌*◌, Bool, true, false, Option, none, some, List, [], ◌∷◌, Bytes, ltb, if◌then◌else◌,
}
use air_bridge5g.Prelude.Int.{ℤ, pos, pos_part, ltb_ℤ}
use air_bridge5g.Prelude.Map.{lookup, insert, erase}

pub data PeerStatus : Type 0 where
  peer_active peer_blocked peer_kicked : PeerStatus

pub record PeerManager : Type 0 where
  pub blocked : List (Bytes × ℕ)
  pub kicked : List (Bytes × ℕ)
  pub trust_level : List (Bytes × ℕ)
  -- whether `onKick` is set
  pub on_kick : Bool

unfoldable pub new_peer_manager : Bool → PeerManager
new_peer_manager on_kick = record { blocked = []; kicked = []; trust_level = []; on_kick = on_kick }

-- `KickPeer`, with the peer that the callback is started for.
unfoldable pub kick_peer : PeerManager → Bytes → ℤ → ℕ → ℕ → PeerManager × Option Bytes
kick_peer pm id ban now now' =
    let pm1 = record pm { kicked = insert id now pm.kicked } in
    let pm2 =
      if ltb_ℤ (pos 0) ban
      then record pm1 { blocked = insert id (now' + pos_part ban) pm.blocked }
      else pm1 in
    (pm2, if pm.on_kick then some id else none)

-- 100 * 365 * 24 * time.Hour
abbrev pub block_duration : ℕ
block_duration = 100 * 365 * 24 * 3600 * 1_000_000_000

unfoldable pub block_peer : PeerManager → Bytes → ℕ → PeerManager
block_peer pm id now = record pm { blocked = insert id (now + block_duration) pm.blocked }

unfoldable pub unblock_peer : PeerManager → Bytes → PeerManager
unblock_peer pm id = record pm { blocked = erase id pm.blocked; kicked = erase id pm.kicked }

-- `IsBlocked` on the entry that the map has.
unfoldable pub check_block : PeerManager → Bytes → ℕ → Option ℕ → PeerManager × Bool
check_block pm id now none = (pm, false)
check_block pm id now (some until) =
    if ltb until now then (record pm { blocked = erase id pm.blocked }, false) else (pm, true)

unfoldable pub is_blocked : PeerManager → Bytes → ℕ → PeerManager × Bool
unfolding check_block
is_blocked pm id now = check_block pm id now (lookup id pm.blocked)

unfoldable pub get_peer_status : PeerManager → Bytes → ℕ → PeerManager × PeerStatus
unfolding is_blocked
get_peer_status pm id now =
    let (pm', blocked) = is_blocked pm id now in
    (
      pm',
      if blocked
          then peer_blocked
          else elim (lookup id pm'.kicked) [ some at ↦ peer_kicked | none ↦ peer_active ],
    )

unfoldable pub clamp_trust : ℤ → ℤ
clamp_trust level =
    let level1 = if ltb_ℤ level (pos 0) then pos 0 else level in
    if ltb_ℤ (pos 100) level1 then pos 100 else level1

unfoldable pub set_trust_level : PeerManager → Bytes → ℤ → PeerManager
set_trust_level pm id level = record pm {
  trust_level = insert id (pos_part (clamp_trust level)) pm.trust_level;
}

unfoldable pub get_trust_level : PeerManager → Bytes → ℕ
get_trust_level pm id = elim (lookup id pm.trust_level) [ some level ↦ level | none ↦ 50 ]

-- `ListBlockedPeers`: `clock i` is the reading of the i-th round.
unfoldable pub list_blocked : (ℕ → ℕ) → ℕ → List (Bytes × ℕ) → List Bytes
list_blocked clock i [] = []
list_blocked clock i ((id, until) ∷ m) =
    let rest = list_blocked clock (i + 1) m in if ltb (clock i) until then id ∷ rest else rest

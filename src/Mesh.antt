-- ===== src/Mesh.antt =====
-- The mesh of core/go/internal/mesh: its peers, its events, and the traversal of NATs.
pub mod PeerManager
pub mod NatTraversal
pub mod Stun
pub mod HolePunch
pub mod Events
pub mod LibP2p

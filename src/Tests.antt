-- ===== src/Tests.antt =====
-- Concrete inputs of the programs under core/go/internal, and the theorems about them.
mod Samples
mod Privacy
mod Proxy
mod Connections
mod Control
mod Wire
mod Mesh
mod Peers
mod Pairing
mod Streams
mod Nodes
mod Store

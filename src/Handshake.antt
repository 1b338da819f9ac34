-- ===== src/Handshake.antt =====
-- The Noise connections of core/go/internal/handshake.
pub mod Frames
pub mod Rounds

-- ===== src/Security.antt =====
-- The network lock of core/go/internal/security, and the nonces of core/go/internal/hotpath.
pub mod KillSwitch
pub mod Nonce

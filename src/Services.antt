-- ===== src/Services.antt =====
-- The control plane of core/go/internal/services: the daemon, its handlers and its life cycle.
pub mod IpLimiter
pub mod Tunnel
pub mod Daemon
pub mod Engine
pub mod Pairing
pub mod Handlers
pub mod Lifecycle
pub mod Stats
pub mod Credentials

-- ===== src/Proxy.antt =====
-- The SOCKS5 proxy of core/go/internal/proxy: the server, the conversation and the relay.
pub mod Relay
pub mod RateLimiter
pub mod Socks5
pub mod Server
pub mod Readers

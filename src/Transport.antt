-- ===== src/Transport.antt =====
-- The transports of core/go/internal/transport: packets on a stream, the streams and their limits.
pub mod Framing
pub mod Streams
pub mod SocksTls

-- ===== src/Protocol.antt =====
-- core/go/internal/protocol/negotiation.go.
pub mod Negotiation

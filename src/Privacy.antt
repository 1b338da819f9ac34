-- ===== src/Privacy.antt =====
-- The privacy engine of core/go/internal/privacy.
pub mod Fragment
pub mod Ttl
pub mod UserAgent

-- ===== src/Cache.antt =====
-- internal/cache: cached credentials.
pub mod Identity
pub mod Resolve
pub mod Store

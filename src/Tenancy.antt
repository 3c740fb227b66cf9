-- ===== src/Tenancy.antt =====
-- internal/tenancy: tenant slugs, and the cache of their resolution.
pub mod Resolver
pub mod Shape
pub mod Staleness
pub mod Tests

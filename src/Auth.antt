-- ===== src/Auth.antt =====
-- internal/auth: passwords, sessions and their lifetime.
pub mod Service
pub mod Sessions
pub mod Tests

-- ===== src/Api.antt =====
-- internal/api: the handlers of the admin API. HTTP, JSON and cookies are reduced to what a handler reads
-- and what it answers.
pub mod Replies
pub mod Members
pub mod Tenants
pub mod Session
pub mod Content
pub mod Limiter
mod Limiting
mod Laws
mod Walk
mod Escalation
mod Elsewhere
mod Isolation
mod Admission
mod Switching
mod Deletion
mod Tests

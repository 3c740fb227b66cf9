-- ===== src/Authz.antt =====
-- internal/authz: roles, capabilities, the actor of a request, its scope and its resolution.
pub mod Roles
pub mod Ladder
pub mod Isolation
pub mod Resolve

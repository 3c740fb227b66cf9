-- ===== src/Oauth.antt =====
-- internal/oauth: logins by Google and GitHub.
pub mod Scopes
pub mod External
pub mod Providers
pub mod Identities
pub mod Service
pub mod Tokens
mod Kept
mod Flows
mod ScopeLaws
mod Tests
mod TokenLaws
mod Ownership
mod Verified

-- ===== src/Auth.antt =====
-- Sign-in and repository authorisation: sessions, OAuth, and the check of the repository's rights.
pub mod Types
pub mod Core
pub mod Configuration
pub mod Repository
pub mod Access
pub mod ReturnTo
pub mod Oauth
pub mod Callback
pub mod Gates
mod Examples
pub mod Sessions

-- ===== src/Auth/Sessions.antt =====
-- Sessions: their JSON form (lib/auth-core.ts) and the table that keeps them
-- (lib/auth-session-store.ts).
pub mod Codec
pub mod RoundTrip
pub mod Store
pub mod Rows
pub mod Lifecycle
pub mod Persistence

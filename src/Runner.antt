-- ===== src/Runner.antt =====
-- The Codex runner: its databases, their backups and their restoration.
pub mod Files
pub mod Metadata
pub mod Manager
pub mod Mounts
pub mod Backups
pub mod Storage
pub mod Restore
mod Examples

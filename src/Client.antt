-- ===== src/Client.antt =====
-- The command line client: crates/aichan/src/main.rs, but for argument parsing and printed output.
pub mod Merge
pub mod Url
pub mod Keys
pub mod Compose
pub mod Receive
pub mod External
pub mod Lines
pub mod Upgrade
pub mod Hints
pub mod Backups
pub mod Sync
pub mod StateCache
pub mod Steps
pub mod Create

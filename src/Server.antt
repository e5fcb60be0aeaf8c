-- ===== src/Server.antt =====
-- The HTTP handlers of crates/aichan-server/src/lib.rs: `handle_request` and what it calls.
pub mod State
pub mod Publishing
pub mod Moderation
pub mod Messaging
pub mod Backups
pub mod Activities
pub mod Dispatch
pub mod Integrity

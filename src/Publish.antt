-- ===== src/Publish.antt =====
-- The publish store of crates/aichan-server/src/lib.rs: its records, the operations of
-- `FilePublishStore`, search with cursors, and discovery.
pub mod Record
pub mod Store
pub mod Pages
pub mod Search
pub mod Discover
pub mod History

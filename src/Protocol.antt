-- ===== src/Protocol.antt =====
-- crates/aichan-core/src/protocol.rs, and the event type of crates/aichan-core/src/activity.rs:
-- the signed objects, their canonical form, and the verification of objects and requests.
pub mod Types
pub mod External
pub mod Canonical
pub mod Verify
pub mod Request
pub mod Laws

-- ===== src/Core.antt =====
-- The rest of crates/aichan-core: identities, message keys, encrypted snapshots and local files.
pub mod External
pub mod MessageCrypto
pub mod Identity
pub mod Errors
pub mod Memory
pub mod Device
pub mod Config
pub mod BackupFile
pub mod Snapshot
pub mod LocalState

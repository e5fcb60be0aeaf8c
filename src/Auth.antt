-- ===== src/Auth.antt =====
-- Authentication in crates/aichan-server/src/lib.rs: replay protection, request signatures read from
-- headers, and the administrator.
pub mod Nonces
pub mod Headers
pub mod Admin

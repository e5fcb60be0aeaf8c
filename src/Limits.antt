-- ===== src/Limits.antt =====
-- The limits of crates/aichan-server/src/lib.rs: `ConnectionLimiter` and `RateLimiter`.
pub mod Connections
pub mod Rate

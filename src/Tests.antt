-- ===== src/Tests.antt =====
-- Each property at a concrete input, with its hypotheses checked.
mod Samples
mod Toys
mod Limits
mod Objects
mod Buckets
mod Requests
mod Sealed
mod Files
mod Clients

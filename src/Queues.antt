-- ===== src/Queues.antt =====
-- The record queues of the asynchronous frontends.
pub mod Bounded
pub mod Unbounded
pub mod Ordering
mod Examples

-- ===== src/Core.antt =====
-- The logging core, libs/log/src/core.cpp: its state and the calls that change it, the opening of
-- a record and its delivery to the sinks.
pub mod State
pub mod Sinks
pub mod Open
pub mod Push
pub mod Threads
pub mod Flush
pub mod Attributes
mod Examples

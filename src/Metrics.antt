-- ===== src/Metrics.antt =====
-- oysterpack-trust/src/metrics.rs.
pub mod Types
pub mod Ids
pub mod Buckets
pub mod Checks
pub mod Registry
pub mod Constructors
pub mod Builders
pub mod Timers

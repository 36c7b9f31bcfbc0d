-- ===== src/Metrics/Ids.antt =====
-- `LabelId` and `MetricId` of oysterpack-trust/src/metrics.rs, over the ULID text codec of
-- oysterpack-uid/src/ulid/mod.rs.
pub mod Codec
pub mod LabelId
pub mod MetricId
pub mod Names

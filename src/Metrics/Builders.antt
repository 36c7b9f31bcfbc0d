-- ===== src/Metrics/Builders.antt =====
-- The metric builders of oysterpack-trust/src/metrics.rs, a module for each.
pub mod Counter
pub mod IntCounter
pub mod CounterVec
pub mod IntCounterVec
pub mod Gauge
pub mod IntGauge
pub mod GaugeVec
pub mod IntGaugeVec
pub mod Histogram
pub mod HistogramVec
pub mod Labels
pub mod Last

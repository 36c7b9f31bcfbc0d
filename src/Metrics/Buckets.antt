-- ===== src/Metrics/Buckets.antt =====
-- `MetricRegistry::check_buckets` of oysterpack-trust/src/metrics.rs.
mod Defs
mod Sweep
mod Rising
mod Cover
unfoldable pub use Defs.{less_at, dedupe_pass, dedupe_rounds, dedupe, sort_dedupe, check_buckets}
pub use Sweep.{sweep, drops, dedupe_pass-sweep}
pub use Rising.{Increasing, check_buckets-Increasing}
pub use Cover.{Sorted, Equal, Covered, check_buckets-Covered}

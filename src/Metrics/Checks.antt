-- ===== src/Metrics/Checks.antt =====
-- The checks that `MetricRegistry` makes on help texts and labels.
mod Defs
pub mod Laws
unfoldable pub use Defs.{
  help_max_len, label_name_len, label_value_len, check_help, trim_labels, check_const_labels,
  check_variable_labels,
}

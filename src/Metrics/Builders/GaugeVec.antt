-- ===== src/Metrics/Builders/GaugeVec.antt =====
-- `GaugeVecBuilder` of oysterpack-trust/src/metrics.rs.
use oysterpack.Prelude.{ℕ, List, Option, none, some, Result, HashMap}
use oysterpack.Text.{Str}
use oysterpack.Metrics.Types.{Error}
use oysterpack.Metrics.Ids.Codec.{RustyUlid}
use oysterpack.Metrics.Constructors.{MetricTypes, new_gauge_vec}
use oysterpack.Metrics.Builders.Labels.{add_label}

pub record GaugeVecBuilder : Type 0 where
  pub metric_id : ℕ
  pub help : Str
  pub variable_label_ids : List ℕ
  pub const_labels : Option (HashMap ℕ Str)

unfoldable pub new : ℕ → Str → List ℕ → GaugeVecBuilder
new metric_id help variable_label_ids = record {
  metric_id = metric_id;
  help = help;
  variable_label_ids = variable_label_ids;
  const_labels = none;
}

unfoldable pub with_label : ℕ → Str → GaugeVecBuilder → GaugeVecBuilder
unfolding add_label
with_label id value b = record b { const_labels = add_label id value b.const_labels }

-- `build`; the two arms of its match differ in the hasher of the map only.
unfoldable pub build :
    {F : Type 0} (types : MetricTypes F) → RustyUlid → GaugeVecBuilder → Result types.GaugeVec Error
unfolding new_gauge_vec
build types ulids b = elim b.const_labels [
  | some labels ↦ new_gauge_vec types ulids b.metric_id b.help b.variable_label_ids (some labels)
  | none ↦ new_gauge_vec types ulids b.metric_id b.help b.variable_label_ids none
]

-- ===== src/Metrics/Builders/Histogram.antt =====
-- `HistogramBuilder` of oysterpack-trust/src/metrics.rs.
use oysterpack.Prelude.{ℕ, Bool, List, Option, none, some, Result, HashMap}
use oysterpack.Text.{Str}
use oysterpack.Metrics.Types.{Error}
use oysterpack.Metrics.Ids.Codec.{RustyUlid}
use oysterpack.Metrics.Constructors.{MetricTypes, new_histogram}
use oysterpack.Metrics.Builders.Labels.{add_label}

pub record HistogramBuilder (F : Type 0) : Type 0 where
  pub metric_id : ℕ
  pub help : Str
  pub const_labels : Option (HashMap ℕ Str)
  pub buckets : List F

unfoldable pub new : {F : Type 0} → ℕ → Str → List F → HistogramBuilder F
new metric_id help buckets = record {
  metric_id = metric_id;
  help = help;
  buckets = buckets;
  const_labels = none;
}

unfoldable pub with_label : {F : Type 0} → ℕ → Str → HistogramBuilder F → HistogramBuilder F
unfolding add_label
with_label id value b = record b { const_labels = add_label id value b.const_labels }

-- `build`; the two arms of its match differ in the hasher of the map only.
unfoldable pub build :
    {F : Type 0} (types : MetricTypes F)
    → RustyUlid
    → (F → F → Bool)
    → (List F → List F)
    → HistogramBuilder F
    → Result types.Histogram Error
unfolding new_histogram
build types ulids lt sort b = elim b.const_labels [
  | some labels ↦ new_histogram types ulids lt sort b.metric_id b.help b.buckets (some labels)
  | none ↦ new_histogram types ulids lt sort b.metric_id b.help b.buckets none
]

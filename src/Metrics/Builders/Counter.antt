-- ===== src/Metrics/Builders/Counter.antt =====
-- `CounterBuilder` of oysterpack-trust/src/metrics.rs.
use oysterpack.Prelude.{ℕ, Option, none, some, Result, HashMap}
use oysterpack.Text.{Str}
use oysterpack.Metrics.Types.{Error}
use oysterpack.Metrics.Ids.Codec.{RustyUlid}
use oysterpack.Metrics.Constructors.{MetricTypes, new_counter}
use oysterpack.Metrics.Builders.Labels.{add_label}

pub record CounterBuilder : Type 0 where
  pub metric_id : ℕ
  pub help : Str
  pub const_labels : Option (HashMap ℕ Str)

unfoldable pub new : ℕ → Str → CounterBuilder
new metric_id help = record { metric_id = metric_id; help = help; const_labels = none }

unfoldable pub with_label : ℕ → Str → CounterBuilder → CounterBuilder
unfolding add_label
with_label id value b = record b { const_labels = add_label id value b.const_labels }

-- `build`; the two arms of its match differ in the hasher of the map only.
unfoldable pub build :
    {F : Type 0} (types : MetricTypes F) → RustyUlid → CounterBuilder → Result types.Counter Error
unfolding new_counter
build types ulids b = elim b.const_labels [
  | some labels ↦ new_counter types ulids b.metric_id b.help (some labels)
  | none ↦ new_counter types ulids b.metric_id b.help none
]

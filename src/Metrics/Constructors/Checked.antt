-- ===== src/Metrics/Constructors/Checked.antt =====
-- The options that each constructor of oysterpack-trust/src/metrics.rs hands to the crate
-- prometheus: the lines that the ten functions share.
use oysterpack.Prelude.{ℕ, Bool, List, [], Option, none, some, Result, ok, ◌>>=◌, HashMap}
use oysterpack.Text.{Str}
use oysterpack.Metrics.Types.{Error, Opts, HistogramOpts}
use oysterpack.Metrics.Ids.Codec.{RustyUlid}
use oysterpack.Metrics.Ids.MetricId
use oysterpack.Metrics.Checks.{check_help, check_const_labels}
use oysterpack.Metrics.Buckets.{check_buckets}

-- `if let Some(const_labels) = const_labels { opts = opts.const_labels(const_labels); }`
unfoldable pub with_const_labels : Option (HashMap Str Str) → Opts → Opts
with_const_labels none opts = opts
with_const_labels (some labels) opts = record opts { const_labels = labels }

-- From `check_help` to the finished options.
unfoldable pub checked_opts : RustyUlid → ℕ → Str → Option (HashMap ℕ Str) → Result Opts Error
unfolding with_const_labels check_help check_const_labels
checked_opts ulids metric_id help const_labels = do
  help' ← check_help help
  const_labels' ← check_const_labels ulids const_labels
  ok (
      with_const_labels const_labels'
        (record { name = MetricId.name ulids metric_id; help = help'; const_labels = [] }))

unfoldable pub checked_histogram_opts :
    {F : Type 0}
    → (F → F → Bool)
    → (List F → List F)
    → RustyUlid
    → ℕ
    → Str
    → List F
    → Option (HashMap ℕ Str)
    → Result (HistogramOpts F) Error
unfolding with_const_labels check_help check_const_labels check_buckets
checked_histogram_opts lt sort ulids metric_id help buckets const_labels = do
  help' ← check_help help
  buckets' ← check_buckets lt sort buckets
  const_labels' ← check_const_labels ulids const_labels
  ok (record {
    opts =
        with_const_labels const_labels'
          (record { name = MetricId.name ulids metric_id; help = help'; const_labels = [] });
    buckets = buckets';
  })

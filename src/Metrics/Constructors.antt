-- ===== src/Metrics/Constructors.antt =====
-- The constructors `new_counter` to `new_histogram_vec` of oysterpack-trust/src/metrics.rs. The metric
-- types of the crate prometheus are a parameter, with their constructors and what they are as
-- collectors.
pub mod Checked
pub mod Valid
use oysterpack.Prelude.{Bool, ℕ, List, Option, Result, ok, err, ◌>>=◌, HashMap}
use oysterpack.Text.{Str}
use oysterpack.Metrics.Types.{Collector, Error, Opts, HistogramOpts}
use oysterpack.Metrics.Ids.Codec.{RustyUlid}
use oysterpack.Metrics.Checks.{check_variable_labels}
use oysterpack.Metrics.Buckets.{check_buckets}
use oysterpack.Metrics.Constructors.Checked.{checked_opts, checked_histogram_opts}

-- The metric types of the crate prometheus; `F` stands for `f64`.
pub record MetricTypes (F : Type 0) : Type 1 where
  pub Counter : Type 0
  pub IntCounter : Type 0
  pub CounterVec : Type 0
  pub IntCounterVec : Type 0
  pub Gauge : Type 0
  pub IntGauge : Type 0
  pub GaugeVec : Type 0
  pub IntGaugeVec : Type 0
  pub Histogram : Type 0
  pub HistogramVec : Type 0
  pub counter : Opts → Result Counter Error
  pub int_counter : Opts → Result IntCounter Error
  pub counter_vec : Opts → List Str → Result CounterVec Error
  pub int_counter_vec : Opts → List Str → Result IntCounterVec Error
  pub gauge : Opts → Result Gauge Error
  pub int_gauge : Opts → Result IntGauge Error
  pub gauge_vec : Opts → List Str → Result GaugeVec Error
  pub int_gauge_vec : Opts → List Str → Result IntGaugeVec Error
  pub histogram : HistogramOpts F → Result Histogram Error
  pub histogram_vec : HistogramOpts F → List Str → Result HistogramVec Error
  pub counter_collector : Counter → Collector F
  pub int_counter_collector : IntCounter → Collector F
  pub counter_vec_collector : CounterVec → Collector F
  pub int_counter_vec_collector : IntCounterVec → Collector F
  pub gauge_collector : Gauge → Collector F
  pub int_gauge_collector : IntGauge → Collector F
  pub gauge_vec_collector : GaugeVec → Collector F
  pub int_gauge_vec_collector : IntGaugeVec → Collector F
  pub histogram_collector : Histogram → Collector F
  pub histogram_vec_collector : HistogramVec → Collector F

module _ {F : Type 0} (types : MetricTypes F) (ulids : RustyUlid) where
  unfoldable pub new_counter : ℕ → Str → Option (HashMap ℕ Str) → Result types.Counter Error
  unfolding checked_opts
  new_counter metric_id help const_labels = do
    opts ← checked_opts ulids metric_id help const_labels
    types.counter opts

  unfoldable pub new_int_counter : ℕ → Str → Option (HashMap ℕ Str) → Result types.IntCounter Error
  unfolding checked_opts
  new_int_counter metric_id help const_labels = do
    opts ← checked_opts ulids metric_id help const_labels
    types.int_counter opts

  unfoldable pub new_counter_vec :
      ℕ → Str → List ℕ → Option (HashMap ℕ Str) → Result types.CounterVec Error
  unfolding checked_opts check_variable_labels
  new_counter_vec metric_id help label_ids const_labels = do
    label_names ← check_variable_labels ulids label_ids
    opts ← checked_opts ulids metric_id help const_labels
    types.counter_vec opts label_names

  unfoldable pub new_int_counter_vec :
      ℕ → Str → List ℕ → Option (HashMap ℕ Str) → Result types.IntCounterVec Error
  unfolding checked_opts check_variable_labels
  new_int_counter_vec metric_id help label_ids const_labels = do
    label_names ← check_variable_labels ulids label_ids
    opts ← checked_opts ulids metric_id help const_labels
    types.int_counter_vec opts label_names

  unfoldable pub new_gauge : ℕ → Str → Option (HashMap ℕ Str) → Result types.Gauge Error
  unfolding checked_opts
  new_gauge metric_id help const_labels = do
    opts ← checked_opts ulids metric_id help const_labels
    types.gauge opts

  unfoldable pub new_int_gauge : ℕ → Str → Option (HashMap ℕ Str) → Result types.IntGauge Error
  unfolding checked_opts
  new_int_gauge metric_id help const_labels = do
    opts ← checked_opts ulids metric_id help const_labels
    types.int_gauge opts

  unfoldable pub new_gauge_vec :
      ℕ → Str → List ℕ → Option (HashMap ℕ Str) → Result types.GaugeVec Error
  unfolding checked_opts check_variable_labels
  new_gauge_vec metric_id help label_ids const_labels = do
    label_names ← check_variable_labels ulids label_ids
    opts ← checked_opts ulids metric_id help const_labels
    types.gauge_vec opts label_names

  unfoldable pub new_int_gauge_vec :
      ℕ → Str → List ℕ → Option (HashMap ℕ Str) → Result types.IntGaugeVec Error
  unfolding checked_opts check_variable_labels
  new_int_gauge_vec metric_id help label_ids const_labels = do
    label_names ← check_variable_labels ulids label_ids
    opts ← checked_opts ulids metric_id help const_labels
    types.int_gauge_vec opts label_names

  -- The histograms, with the comparison and the sort of `check_buckets`.
  module _ (lt : F → F → Bool) (sort : List F → List F) where
    unfoldable pub new_histogram :
        ℕ → Str → List F → Option (HashMap ℕ Str) → Result types.Histogram Error
    unfolding checked_histogram_opts
    new_histogram metric_id help buckets const_labels = do
      opts ← checked_histogram_opts lt sort ulids metric_id help buckets const_labels
      types.histogram opts

    unfoldable pub new_histogram_vec :
        ℕ → Str → List ℕ → List F → Option (HashMap ℕ Str) → Result types.HistogramVec Error
    unfolding checked_histogram_opts check_variable_labels
    new_histogram_vec metric_id help label_ids buckets const_labels = do
      label_names ← check_variable_labels ulids label_ids
      opts ← checked_histogram_opts lt sort ulids metric_id help buckets const_labels
      types.histogram_vec opts label_names

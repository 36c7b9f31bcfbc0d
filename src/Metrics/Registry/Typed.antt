-- ===== src/Metrics/Registry/Typed.antt =====
-- `MetricRegistry::register_int_gauge` to `register_histogram_vec` of
-- oysterpack-trust/src/metrics.rs: a metric is made, and its clone is registered.
use oysterpack.Prelude.{ℕ, Bool, List, Option, Result, ok, err, is_ok, HashMap, ◌≡◌, refl, true}
use oysterpack.Text.{Str}
use oysterpack.Metrics.Types.{Collector, Error}
use oysterpack.Metrics.Ids.Codec.{RustyUlid}
use oysterpack.Metrics.Constructors.{
  MetricTypes, new_counter, new_int_counter, new_counter_vec, new_int_counter_vec, new_gauge,
  new_int_gauge, new_gauge_vec, new_int_gauge_vec, new_histogram, new_histogram_vec,
}
use oysterpack.Metrics.Registry.{Prometheus, MetricRegistry, register}

module _ {F : Type 0} (prometheus : Prometheus F) where
  -- `self.register(metric.clone())?; Ok(metric)`
  answer :
      {M : Type 0}
      → M
      → Result (Collector F) Error × MetricRegistry prometheus
      → Result M Error × MetricRegistry prometheus
  answer metric (ok _, r) = (ok metric, r)
  answer metric (err e, r) = (err e, r)

  -- What follows `new_*(..)`, its `?` included.
  unfoldable pub register_metric :
      {M : Type 0}
      → (M → Collector F)
      → Result M Error
      → MetricRegistry prometheus
      → Result M Error × MetricRegistry prometheus
  unfolding answer register
  register_metric collector (ok metric) r = answer metric (register prometheus (collector metric) r)
  register_metric collector (err e) r = (err e, r)

  answer-ok :
      {M : Type 0} (metric : M) (x : Result (Collector F) Error × MetricRegistry prometheus)
      → is_ok x.0 ≡ true
      → answer metric x ≡ (ok metric, x.1)
  unfolding answer
  answer-ok metric (ok _, r) h = refl
  answer-ok metric (err e, r) h = cc

  -- A metric that is made and accepted is the answer.
  pub register_metric-ok :
      {M : Type 0} (collector : M → Collector F) (metric : M) (made : Result M Error)
      (r : MetricRegistry prometheus)
      → made ≡ ok metric
      → is_ok (register prometheus (collector metric) r).0 ≡ true
      → register_metric collector made r ≡ (ok metric, (register prometheus (collector metric) r).1)
  unfolding register_metric
  register_metric-ok collector metric made r m h =
      rw (m, register_metric) (answer-ok metric (register prometheus (collector metric) r) h)

  module _ (types : MetricTypes F) (ulids : RustyUlid) where
    unfoldable pub register_counter :
        ℕ
        → Str
        → Option (HashMap ℕ Str)
        → MetricRegistry prometheus
        → Result types.Counter Error × MetricRegistry prometheus
    unfolding register_metric new_counter
    register_counter metric_id help const_labels r =
        register_metric types.counter_collector
          (new_counter types ulids metric_id help const_labels) r

    unfoldable pub register_int_counter :
        ℕ
        → Str
        → Option (HashMap ℕ Str)
        → MetricRegistry prometheus
        → Result types.IntCounter Error × MetricRegistry prometheus
    unfolding register_metric new_int_counter
    register_int_counter metric_id help const_labels r =
        register_metric types.int_counter_collector
          (new_int_counter types ulids metric_id help const_labels) r

    unfoldable pub register_counter_vec :
        ℕ
        → Str
        → List ℕ
        → Option (HashMap ℕ Str)
        → MetricRegistry prometheus
        → Result types.CounterVec Error × MetricRegistry prometheus
    unfolding register_metric new_counter_vec
    register_counter_vec metric_id help label_ids const_labels r =
        register_metric types.counter_vec_collector
          (new_counter_vec types ulids metric_id help label_ids const_labels) r

    unfoldable pub register_int_counter_vec :
        ℕ
        → Str
        → List ℕ
        → Option (HashMap ℕ Str)
        → MetricRegistry prometheus
        → Result types.IntCounterVec Error × MetricRegistry prometheus
    unfolding register_metric new_int_counter_vec
    register_int_counter_vec metric_id help label_ids const_labels r =
        register_metric types.int_counter_vec_collector
          (new_int_counter_vec types ulids metric_id help label_ids const_labels) r

    unfoldable pub register_gauge :
        ℕ
        → Str
        → Option (HashMap ℕ Str)
        → MetricRegistry prometheus
        → Result types.Gauge Error × MetricRegistry prometheus
    unfolding register_metric new_gauge
    register_gauge metric_id help const_labels r =
        register_metric types.gauge_collector (new_gauge types ulids metric_id help const_labels) r

    unfoldable pub register_int_gauge :
        ℕ
        → Str
        → Option (HashMap ℕ Str)
        → MetricRegistry prometheus
        → Result types.IntGauge Error × MetricRegistry prometheus
    unfolding register_metric new_int_gauge
    register_int_gauge metric_id help const_labels r =
        register_metric types.int_gauge_collector
          (new_int_gauge types ulids metric_id help const_labels) r

    unfoldable pub register_gauge_vec :
        ℕ
        → Str
        → List ℕ
        → Option (HashMap ℕ Str)
        → MetricRegistry prometheus
        → Result types.GaugeVec Error × MetricRegistry prometheus
    unfolding register_metric new_gauge_vec
    register_gauge_vec metric_id help label_ids const_labels r =
        register_metric types.gauge_vec_collector
          (new_gauge_vec types ulids metric_id help label_ids const_labels) r

    unfoldable pub register_int_gauge_vec :
        ℕ
        → Str
        → List ℕ
        → Option (HashMap ℕ Str)
        → MetricRegistry prometheus
        → Result types.IntGaugeVec Error × MetricRegistry prometheus
    unfolding register_metric new_int_gauge_vec
    register_int_gauge_vec metric_id help label_ids const_labels r =
        register_metric types.int_gauge_vec_collector
          (new_int_gauge_vec types ulids metric_id help label_ids const_labels) r

    unfoldable pub register_histogram :
        (F → F → Bool)
        → (List F → List F)
        → ℕ
        → Str
        → List F
        → Option (HashMap ℕ Str)
        → MetricRegistry prometheus
        → Result types.Histogram Error × MetricRegistry prometheus
    unfolding register_metric new_histogram
    register_histogram lt sort metric_id help buckets const_labels r =
        register_metric types.histogram_collector
          (new_histogram types ulids lt sort metric_id help buckets const_labels) r

    unfoldable pub register_histogram_vec :
        (F → F → Bool)
        → (List F → List F)
        → ℕ
        → Str
        → List ℕ
        → List F
        → Option (HashMap ℕ Str)
        → MetricRegistry prometheus
        → Result types.HistogramVec Error × MetricRegistry prometheus
    unfolding register_metric new_histogram_vec
    register_histogram_vec lt sort metric_id help label_ids buckets const_labels r =
        register_metric types.histogram_vec_collector
          (new_histogram_vec types ulids lt sort metric_id help label_ids buckets const_labels) r

-- ===== src/Metrics/Registry/Process.antt =====
-- `MetricRegistry::default`, `gather_process_metrics` and `ProcessMetrics` of
-- oysterpack-trust/src/metrics.rs. The process collector of the crate prometheus is a parameter.
pub mod First
pub mod Panics
use oysterpack.Prelude.{
  ℕ, Bool, ◌≡◌, refl, ap, sym, ◌∙◌, List, [], ◌∷◌, ◌++◌, Option, none, some, Result, ok, err,
  if◌then◌else◌, ◌==◌, nat_eq, list_eq, Outcome, returns, panics, HashMap, get, get_elem?, arith,
}
use oysterpack.Text.{Str, codes}
use oysterpack.Metrics.Types.{Metric, MetricFamily, Collector, Error}
use oysterpack.Metrics.Registry.{Prometheus, MetricRegistry, register}

-- `ProcessMetrics`; `F` stands for `f64`.
pub record ProcessMetrics (F : Type 0) : Type 0 where
  pub cpu_seconds_total : F
  pub open_fds : F
  pub max_fds : F
  pub virtual_memory_bytes : F
  pub resident_memory_bytes : F
  pub start_time_seconds : F

abbrev pub process_cpu_seconds_total : Str
process_cpu_seconds_total = codes "process_cpu_seconds_total"

abbrev pub process_open_fds : Str
process_open_fds = codes "process_open_fds"

abbrev pub process_max_fds : Str
process_max_fds = codes "process_max_fds"

abbrev pub process_virtual_memory_bytes : Str
process_virtual_memory_bytes = codes "process_virtual_memory_bytes"

abbrev pub process_resident_memory_bytes : Str
process_resident_memory_bytes = codes "process_resident_memory_bytes"

abbrev pub process_start_time_seconds : Str
process_start_time_seconds = codes "process_start_time_seconds"

abbrev pub metric_names : List Str
metric_names =
    process_cpu_seconds_total ∷ process_open_fds ∷ process_max_fds ∷ process_virtual_memory_bytes
    ∷ process_resident_memory_bytes ∷ process_start_time_seconds ∷ []

module _ {F : Type 0} where
  -- `metric_family.get_metric()[0]`, from which a value is read and stored.
  with_first : List (Metric F) → (Metric F → ProcessMetrics F) → Outcome (ProcessMetrics F)
  with_first [] store = panics
  with_first (metric ∷ _) store = returns (store metric)

  -- One round of the loop of `ProcessMetrics::collect`.
  unfoldable pub collect_family : MetricFamily F → ProcessMetrics F → Outcome (ProcessMetrics F)
  unfolding with_first
  collect_family mf pm =
      if mf.name == process_cpu_seconds_total
      then with_first mf.metric (λ m. record pm { cpu_seconds_total = m.counter })
      else if mf.name == process_open_fds
      then with_first mf.metric (λ m. record pm { open_fds = m.gauge })
      else if mf.name == process_max_fds
      then with_first mf.metric (λ m. record pm { max_fds = m.gauge })
      else if mf.name == process_virtual_memory_bytes
      then with_first mf.metric (λ m. record pm { virtual_memory_bytes = m.gauge })
      else if mf.name == process_resident_memory_bytes
      then with_first mf.metric (λ m. record pm { resident_memory_bytes = m.gauge })
      else if mf.name == process_start_time_seconds
      then with_first mf.metric (λ m. record pm { start_time_seconds = m.gauge })
      else returns pm

  unfoldable pub collect_families :
      List (MetricFamily F) → ProcessMetrics F → Outcome (ProcessMetrics F)
  unfolding collect_family
  collect_families [] pm = returns pm
  collect_families (mf ∷ mfs) pm = elim (collect_family mf pm) [
    | returns pm' ↦ collect_families mfs pm'
    | panics ↦ panics
  ]

  -- `ProcessMetrics::collect`; `zero` is `f64::default()`.
  unfoldable pub collect : F → Collector F → Outcome (ProcessMetrics F)
  unfolding collect_families
  collect zero process_collector = collect_families process_collector.collect (record {
    cpu_seconds_total = zero;
    open_fds = zero;
    max_fds = zero;
    virtual_memory_bytes = zero;
    resident_memory_bytes = zero;
    start_time_seconds = zero;
  })

module _ {F : Type 0} (prometheus : Prometheus F) where
  -- `self.metric_collectors.read()[0]`, collected.
  collect_first : F → List (Collector F) → Outcome (ProcessMetrics F)
  unfolding collect
  collect_first zero [] = panics
  collect_first zero (c ∷ _) = collect zero c

  unfoldable pub gather_process_metrics : F → MetricRegistry prometheus → Outcome (ProcessMetrics F)
  unfolding collect_first
  gather_process_metrics zero r = collect_first zero r.metric_collectors

  -- `.unwrap()` of the registration.
  unwrapped :
      Result (Collector F) Error × MetricRegistry prometheus → Outcome (MetricRegistry prometheus)
  unwrapped (ok _, r) = returns r
  unwrapped (err e, r) = panics

  -- `MetricRegistry::default`, of the process collector.
  unfoldable pub default : Collector F → Outcome (MetricRegistry prometheus)
  unfolding unwrapped register
  default process_collector = unwrapped (
      register prometheus process_collector
        (record { registry = prometheus.new; metric_collectors = [] }))

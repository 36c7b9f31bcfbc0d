-- ===== src/Examples/Registry.antt =====
-- The metric registry.
use oysterpack.Prelude.{
  ℕ, ◌≤◌, ◌≡◌, refl, ◌↔◌, true, List, [], ◌∷◌, ◌++◌, filter, flat_map, Option, none, some, ok, In,
  panics, returns, All, arith, HashMap, get, contains, nat_eq, list_eq, subst, ok-injective,
}
use oysterpack.Text.{Str, codes, trim, trim_start, is_whitespace}
use oysterpack.Metrics.Types.{Collector, MetricFamily, Opts}
use oysterpack.Metrics.Ids.MetricId
use oysterpack.Metrics.Ids.LabelId
use oysterpack.Metrics.Checks.{check_help}
use oysterpack.Metrics.Registry.{
  MetricRegistry, register, validate, validate_help, check_label_values_not_blank,
  check_const_label_name_length, check_variable_label_name_length,
  check_variable_label_value_length,
}
use oysterpack.Metrics.Registry.Register.{IsValid}
use oysterpack.Metrics.Registry.Queries.{descs, metric_family_count, collectors_for_desc_ids}
use oysterpack.Metrics.Registry.Queries.Counts.{
  names, distinct, Grouped, metric_family_count-Grouped,
}
use oysterpack.Metrics.Registry.Queries.Lookups.{IsFirst, collectors_for_desc_ids-get}
use oysterpack.Metrics.Registry.Gather.{gather_for_desc_names, gather_for_labels}
use oysterpack.Metrics.Registry.Gather.ByName.{gather_for_desc_names_complete}
use oysterpack.Metrics.Registry.Gather.ByLabel.{with_labels, gather_for_labels_complete}
use oysterpack.Metrics.Registry.Process.{default, collect, gather_process_metrics}
use oysterpack.Metrics.Registry.Process.Panics.{IsUnreadable}
use oysterpack.Metrics.Registry.Process.First.{registers, gather_process_metrics-registers}
use oysterpack.Metrics.Registry.Typed.{register_counter_vec}
use oysterpack.Metrics.Constructors.{new_counter_vec, new_counter}
use oysterpack.Metrics.Builders.Counter.{new, build}
use oysterpack.Metrics.Builders.Last.{labels_of, last, label_all, build-label_all}
use oysterpack.Metrics.Constructors.Valid.{Describes, register_counter_vec-ok}
use oysterpack.Examples.Ulids.{base32}
use oysterpack.Examples.Instances.{
  accepting, collector, collector_n, fds, registry, types, described,
}

abbrev empty : MetricRegistry accepting
empty = record { registry = []; metric_collectors = [] }

metric_family_count-Grouped_example :
    (distinct (names (descs registry)) ≤ metric_family_count registry)
    × ((metric_family_count registry ≡ distinct (names (descs registry)))
        ↔ Grouped (names (descs registry)))
metric_family_count-Grouped_example = metric_family_count-Grouped registry

abbrev ids : List ℕ
ids = 7 ∷ 9 ∷ 7 ∷ []

collectors_for_desc_ids-get_example :
    (get 7 (collectors_for_desc_ids ids registry) ≡ some collector)
    ↔ ((contains 7 ids ≡ true) × IsFirst 7 collector registry.metric_collectors)
collectors_for_desc_ids-get_example = collectors_for_desc_ids-get registry ids 7 collector

gather_for_desc_names_complete_example :
    gather_for_desc_names (codes "m" ∷ []) registry
    ≡ filter
        (λ (mf : MetricFamily ℕ). contains mf.name (codes "m" ∷ []))
        (flat_map (λ (c : Collector ℕ). c.collect) registry.metric_collectors)
gather_for_desc_names_complete_example =
    gather_for_desc_names_complete (codes "m" ∷ []) registry ((refl, tt), ((refl, tt), tt))

abbrev wanted : HashMap Str Str
wanted = (codes "ab", codes "x") ∷ []

gather_for_labels_complete_example :
    gather_for_labels wanted registry
    ≡ with_labels wanted (flat_map (λ (c : Collector ℕ). c.collect) registry.metric_collectors)
gather_for_labels_complete_example =
    gather_for_labels_complete wanted registry (λ e. cc)
      (((tt, tt), tt), ((((refl, tt), ((refl, tt), ((refl, tt), tt))), tt), tt))

abbrev with_fds : MetricRegistry accepting
with_fds = record { registry = fds ∷ []; metric_collectors = fds ∷ [] }

fds-default : default accepting fds ≡ returns with_fds
unfolding default register validate check_help trim trim_start is_whitespace validate_help
    check_label_values_not_blank check_const_label_name_length check_variable_label_name_length
    check_variable_label_value_length
fds-default = refl

gather_process_metrics-registers_example :
    IsValid accepting (registers accepting (collector ∷ collector_n ∷ []) with_fds)
    × (gather_process_metrics accepting 0
          (registers accepting (collector ∷ collector_n ∷ []) with_fds)
        ≡ collect 0 fds)
    × ((gather_process_metrics accepting 0
            (registers accepting (collector ∷ collector_n ∷ []) with_fds)
          ≡ panics)
        ↔ ((mf : MetricFamily ℕ) × In mf fds.collect × IsUnreadable mf))
gather_process_metrics-registers_example =
    gather_process_metrics-registers accepting fds with_fds (collector ∷ collector_n ∷ []) 0
      fds-default

abbrev opts : Opts × List Str
opts = (
  record { name = b'M' ∷ base32.to_string 5; help = codes "help"; const_labels = [] },
  (b'L' ∷ base32.to_string 6) ∷ [],
)

made : new_counter_vec types base32 5 (codes " help") (6 ∷ []) none ≡ ok opts
unfolding new_counter_vec trim trim_start is_whitespace MetricId.name LabelId.name
made = refl

documented :
    (o : Opts) (names : List Str) (m : types.CounterVec)
    → types.counter_vec o names ≡ ok m
    → All (Describes o names) (types.counter_vec_collector m).desc
documented o names m h =
    subst (λ x. All (Describes o names) (described x).desc) (ok-injective h)
      (record { same_help = refl; same_variables = refl; some_const = λ p i. elim i [ ] }, tt)

register_counter_vec-ok_example :
    ((register_counter_vec accepting types base32 5 (codes " help") (6 ∷ []) none empty).0
      ≡ ok opts)
    × ((register_counter_vec accepting types base32 5
          (codes " help")
          (6 ∷ [])
          none
          empty).1.metric_collectors
        ≡ empty.metric_collectors ++ described opts ∷ [])
register_counter_vec-ok_example =
    register_counter_vec-ok base32 types accepting 5 (codes " help") (6 ∷ []) none opts empty
      documented (omega arith, tt) tt made refl tt

abbrev chain : List (ℕ × Str)
chain = (1, codes "x") ∷ (2, codes "y") ∷ (1, codes "z") ∷ []

build-label_all_example :
    (labels : Option (HashMap ℕ Str)) × (build types base32 (label_all chain (new 5 (codes "help")))
      ≡ new_counter types base32 5 (codes "help") labels)
    × ((id : ℕ) → get id (labels_of labels) ≡ last id chain)
build-label_all_example = build-label_all types base32 5 (codes "help") chain

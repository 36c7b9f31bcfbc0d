-- ===== src/Metrics/Registry.antt =====
-- `MetricRegistry` of oysterpack-trust/src/metrics.rs: its state and `register`. The write lock is
-- held for a whole call, so a call is one step; `prometheus::Registry` is a parameter.
pub mod Valid
pub mod Register
pub mod Queries
pub mod Gather
pub mod Typed
pub mod Process
use oysterpack.Prelude.{
  ℕ, Bool, List, [], ◌∷◌, ◌++◌, map, filter, Option, none, some, Result, ok, err, ◌>>=◌, ◌>>◌,
  map_err, ltb, if◌then◌else◌, is_empty, filter_map, first,
}
use oysterpack.Text.{Str, str_len, trim}
use oysterpack.Metrics.Types.{
  LabelPair, Desc, Collector, MetricFamily, DescIssue, label_value_blank, const_label_name_too_long,
  variable_label_name_too_long, const_label_value_too_long, Error, msg, invalid_descs,
}
use oysterpack.Metrics.Checks.{check_help, label_name_len, label_value_len}

-- `prometheus::Registry`: its state, `new`, `register` and `gather`.
pub record Prometheus (F : Type 0) : Type 1 where
  pub State : Type 0
  pub new : State
  pub register : Collector F → State → Result (Unit {0}) Error × State
  pub gather : State → List (MetricFamily F)

-- The error of a help text, if it has one.
help_err : Desc → Option Error
unfolding check_help
help_err desc = elim (check_help desc.help) [ ok _ ↦ none | err e ↦ some e ]

-- `match err.pop() { Some(err) => Err(err), None => Ok(()) }`
or_ok : Option Error → Result (Unit {0}) Error
or_ok none = ok tt
or_ok (some e) = err e

unfoldable pub validate_help : List Desc → Result (Unit {0}) Error
unfolding help_err or_ok
validate_help descs = or_ok (first (filter_map help_err descs))

-- `to_result`: no issue is success.
to_result : List DescIssue → Result (Unit {0}) Error
to_result [] = ok tt
to_result (e ∷ es) = err (msg (invalid_descs (e ∷ es)))

-- The issue of a descriptor, if the list of its labels at fault is not empty.
issue : (Str → List Str → DescIssue) → Desc → List Str → Option DescIssue
issue kind desc [] = none
issue kind desc (n ∷ ns) = some (kind desc.fq_name (n ∷ ns))

-- The names of the label pairs that a test refuses.
refused : (LabelPair → Bool) → List LabelPair → List Str
refused bad pairs = map (λ (p : LabelPair). p.name) (filter bad pairs)

unfoldable pub check_label_values_not_blank : List Desc → Result (Unit {0}) Error
unfolding to_result issue refused
check_label_values_not_blank descs = to_result (
    filter_map
      (λ (desc : Desc).
        issue label_value_blank desc
          (refused (λ (p : LabelPair). is_empty (trim p.value)) desc.const_label_pairs))
      descs)

unfoldable pub check_const_label_name_length : List Desc → Result (Unit {0}) Error
unfolding to_result issue refused
check_const_label_name_length descs = to_result (
    filter_map
      (λ (desc : Desc).
        issue const_label_name_too_long desc
          (refused (λ (p : LabelPair). ltb label_name_len (str_len p.name)) desc.const_label_pairs))
      descs)

unfoldable pub check_variable_label_name_length : List Desc → Result (Unit {0}) Error
unfolding to_result issue
check_variable_label_name_length descs = to_result (
    filter_map
      (λ (desc : Desc).
        issue variable_label_name_too_long desc
          (filter (λ (label : Str). ltb label_name_len (str_len label)) desc.variable_labels))
      descs)

unfoldable pub check_variable_label_value_length : List Desc → Result (Unit {0}) Error
unfolding to_result issue refused
check_variable_label_value_length descs = to_result (
    filter_map
      (λ (desc : Desc).
        issue const_label_value_too_long desc (
          refused (λ (p : LabelPair). ltb label_value_len (str_len p.value))
            desc.const_label_pairs))
      descs)

-- The five checks of `register`, in order.
unfoldable pub validate : List Desc → Result (Unit {0}) Error
validate descs = do
  validate_help descs
  check_label_values_not_blank descs
  check_const_label_name_length descs
  check_variable_label_name_length descs
  check_variable_label_value_length descs

module _ {F : Type 0} (prometheus : Prometheus F) where
  pub record MetricRegistry : Type 0 where
    pub registry : prometheus.State
    pub metric_collectors : List (Collector F)

  -- `self.registry.register(..)?` and what follows it.
  push_accepted :
      Collector F
      → MetricRegistry
      → Result (Unit {0}) Error × prometheus.State
      → Result (Collector F) Error × MetricRegistry
  push_accepted collector r (err e, state) = (err e, record r { registry = state })
  push_accepted collector r (ok _, state) = (
    ok collector,
    record { registry = state; metric_collectors = r.metric_collectors ++ collector ∷ [] },
  )

  unfoldable pub register :
      Collector F → MetricRegistry → Result (Collector F) Error × MetricRegistry
  unfolding push_accepted
  register collector r = elim (validate collector.desc) [
    | err e ↦ (err e, r)
    | ok _ ↦ push_accepted collector r (prometheus.register collector r.registry)
  ]

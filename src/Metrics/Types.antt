-- ===== src/Metrics/Types.antt =====
-- The prometheus types that oysterpack-trust/src/metrics.rs reads, and its errors. `F` stands for
-- `f64`. A collector is what its two methods return at the time of a call.
use oysterpack.Prelude.{ℕ, Bool, ◌&&◌, List, ◌==◌, nat_eq, list_eq, HashMap}
use oysterpack.Text.{Str}

-- `prometheus::proto::LabelPair`.
pub record LabelPair : Type 0 where
  pub name : Str
  pub value : Str

-- `==` on label pairs.
abbrev pub pair_beq : LabelPair → LabelPair → Bool
pair_beq p q = p.name == q.name && p.value == q.value

-- `prometheus::core::Desc`.
pub record Desc : Type 0 where
  pub fq_name : Str
  pub help : Str
  pub const_label_pairs : List LabelPair
  pub variable_labels : List Str
  pub id : ℕ

-- `prometheus::proto::Metric`: its labels, and its value as a counter and as a gauge.
pub record Metric (F : Type 0) : Type 0 where
  pub label : List LabelPair
  pub counter : F
  pub gauge : F

-- `prometheus::proto::MetricFamily`.
pub record MetricFamily (F : Type 0) : Type 0 where
  pub name : Str
  pub metric : List (Metric F)

-- `prometheus::core::Collector`.
pub record Collector (F : Type 0) : Type 0 where
  pub desc : List Desc
  pub collect : List (MetricFamily F)

-- Why a descriptor is refused by `MetricRegistry::register`: its name, and the labels at fault.
pub data DescIssue : Type 0 where
  label_value_blank : Str → List Str → DescIssue
  const_label_name_too_long : Str → List Str → DescIssue
  variable_label_name_too_long : Str → List Str → DescIssue
  const_label_value_too_long : Str → List Str → DescIssue

-- The messages that the source formats, unrendered.
pub data Message : Type 0 where
  help_blank : Message
  help_too_long : ℕ → Message
  const_label_blank : Message
  const_label_too_long : ℕ → Message
  no_variable_labels : Message
  no_buckets : Message
  invalid_descs : List DescIssue → Message
  no_durations : Message
  start_not_positive : Message

-- `prometheus::Error`: `Msg`, and what the crate itself reports, by a code.
pub data Error : Type 0 where
  msg : Message → Error
  reported : ℕ → Error

-- `prometheus::Opts` and, with its buckets, `prometheus::HistogramOpts`.
pub record Opts : Type 0 where
  pub name : Str
  pub help : Str
  pub const_labels : HashMap Str Str

pub record HistogramOpts (F : Type 0) : Type 0 where
  pub opts : Opts
  pub buckets : List F

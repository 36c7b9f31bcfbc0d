-- ===== src/Examples/Instances.antt =====
-- A prometheus registry that accepts everything, and what is registered with it.
use oysterpack.Prelude.{ℕ, List, [], ◌∷◌, ok, flat_map}
use oysterpack.Text.{Str, codes}
use oysterpack.Metrics.Types.{LabelPair, Desc, Metric, MetricFamily, Collector, Opts, HistogramOpts}
use oysterpack.Metrics.Registry.{Prometheus, MetricRegistry}
use oysterpack.Metrics.Registry.Process.{process_open_fds}
use oysterpack.Metrics.Constructors.{MetricTypes}

abbrev pub accepting : Prometheus ℕ
accepting = record {
  State = List (Collector ℕ);
  new = [];
  register = λ c s. (ok tt, c ∷ s);
  gather = λ s. flat_map (λ (c : Collector ℕ). c.collect) s;
}

-- The label `ab` with the value `x`.
abbrev pub pair : LabelPair
pair = record { name = codes "ab"; value = codes "x" }

abbrev pub other_pair : LabelPair
other_pair = record { name = codes "ab"; value = codes "y" }

abbrev pub desc : Desc
desc = record {
  fq_name = codes "m";
  help = codes "help";
  const_label_pairs = [];
  variable_labels = codes "ab" ∷ [];
  id = 7;
}

abbrev pub metric : Metric ℕ
metric = record { label = pair ∷ []; counter = 3; gauge = 4 }

abbrev pub other_metric : Metric ℕ
other_metric = record { label = other_pair ∷ []; counter = 5; gauge = 6 }

abbrev pub family : MetricFamily ℕ
family = record { name = codes "m"; metric = other_metric ∷ metric ∷ other_metric ∷ [] }

abbrev pub collector : Collector ℕ
collector = record { desc = desc ∷ []; collect = family ∷ [] }

abbrev pub desc_n : Desc
desc_n = record desc { fq_name = codes "n"; id = 8; variable_labels = [] }

abbrev pub collector_n : Collector ℕ
collector_n = record {
  desc = desc_n ∷ [];
  collect = record { name = codes "n"; metric = record metric { label = [] } ∷ [] } ∷ [];
}

abbrev pub fds : Collector ℕ
fds = record {
  desc = record desc { fq_name = process_open_fds; id = 9 } ∷ [];
  collect = record { name = process_open_fds; metric = metric ∷ [] } ∷ [];
}

abbrev pub registry : MetricRegistry accepting
registry = record { registry = []; metric_collectors = collector_n ∷ collector ∷ [] }

-- Metrics that are their options, with the names of their variable labels.
abbrev pub described : Opts × List Str → Collector ℕ
described (o, names) = record {
  desc =
      record {
        fq_name = o.name;
        help = o.help;
        const_label_pairs = [];
        variable_labels = names;
        id = 0;
      }
      ∷ [];
  collect = [];
}

abbrev pub types : MetricTypes ℕ
types = record {
  Counter = Opts;
  IntCounter = Opts;
  CounterVec = Opts × List Str;
  IntCounterVec = Opts × List Str;
  Gauge = Opts;
  IntGauge = Opts;
  GaugeVec = Opts × List Str;
  IntGaugeVec = Opts × List Str;
  Histogram = HistogramOpts ℕ;
  HistogramVec = HistogramOpts ℕ × List Str;
  counter = λ o. ok o;
  int_counter = λ o. ok o;
  counter_vec = λ o names. ok (o, names);
  int_counter_vec = λ o names. ok (o, names);
  gauge = λ o. ok o;
  int_gauge = λ o. ok o;
  gauge_vec = λ o names. ok (o, names);
  int_gauge_vec = λ o names. ok (o, names);
  histogram = λ o. ok o;
  histogram_vec = λ o names. ok (o, names);
  counter_collector = λ o. described (o, []);
  int_counter_collector = λ o. described (o, []);
  counter_vec_collector = described;
  int_counter_vec_collector = described;
  gauge_collector = λ o. described (o, []);
  int_gauge_collector = λ o. described (o, []);
  gauge_vec_collector = described;
  int_gauge_vec_collector = described;
  histogram_collector = λ (o : HistogramOpts ℕ). described (o.opts, []);
  histogram_vec_collector = λ (p : HistogramOpts ℕ × List Str). described (p.0.opts, p.1);
}

-- ===== src/Examples/Ids.antt =====
-- Ids.
use oysterpack.Prelude.{◌≡◌, ◌≢◌, none, some, ok, returns, panics, arith}
use oysterpack.Text.{Str}
use oysterpack.Metrics.Types.{Desc}
use oysterpack.Metrics.Ids.LabelId
use oysterpack.Metrics.Ids.MetricId
use oysterpack.Metrics.Ids.Names.{
  parse_desc_metric_id, LabelId-from_str-name, parse_desc_metric_id-name,
}
use oysterpack.Examples.Ulids.{base32}
use oysterpack.Examples.Instances.{desc}

LabelId-from_str-name_example :
    (LabelId.from_str base32 (LabelId.name base32 77) ≡ returns (ok 77))
    × ((s : Str) → LabelId.from_str base32 s ≢ panics)
LabelId-from_str-name_example = LabelId-from_str-name base32 77 (omega arith)

abbrev named : Desc
named = record desc { fq_name = MetricId.name base32 77 }

parse_desc_metric_id-name_example :
    (named.fq_name ≡ MetricId.name base32 77
      → parse_desc_metric_id base32 named ≡ returns (some 77))
    × (named.fq_name ≡ LabelId.name base32 77 → parse_desc_metric_id base32 named ≡ returns none)
    × (MetricId.name base32 77 ≢ LabelId.name base32 77)
parse_desc_metric_id-name_example = parse_desc_metric_id-name base32 named 77 (omega arith)

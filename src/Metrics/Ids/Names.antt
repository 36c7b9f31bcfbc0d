-- ===== src/Metrics/Ids/Names.antt =====
-- Names of metrics and labels read back, and the two kinds are told apart.
use oysterpack.Prelude.{
  ℕ, ◌^◌, ◌<◌, ◌≡◌, ◌≢◌, [], ◌∷◌, ok, err, Result, Outcome, returns, panics, ◌==◌, nat_eq, arith,
  Option, none, some, if◌then◌else◌,
}
use oysterpack.Text.{Str, str_len}
use oysterpack.Metrics.Ids.Codec.{RustyUlid, DecodingError}
use oysterpack.Metrics.Ids.LabelId
use oysterpack.Metrics.Ids.MetricId
use oysterpack.Metrics.Types.{Desc}

module _ (ulids : RustyUlid) where
  -- `Result::ok`, behind a parser that may panic.
  as_option : Outcome (Result ℕ DecodingError) → Outcome (Option ℕ)
  as_option panics = panics
  as_option (returns (err e)) = returns none
  as_option (returns (ok id)) = returns (some id)

  unfoldable pub parse_desc_metric_id : Desc → Outcome (Option ℕ)
  unfolding as_option MetricId.from_str
  parse_desc_metric_id desc =
      if str_len desc.fq_name == 27
      then as_option (MetricId.from_str ulids desc.fq_name)
      else returns none

  -- Every label id reads back from its name, and no text makes the parser of label ids panic.
  pub LabelId-from_str-name :
      (id : ℕ)
      → id < 2 ^ 128
      → (LabelId.from_str ulids (LabelId.name ulids id) ≡ returns (ok id))
        × ((s : Str) → LabelId.from_str ulids s ≢ panics)
  unfolding LabelId.from_str LabelId.name
  LabelId-from_str-name id h =
      (ground (arith, ulids.to_string_len id h, ulids.parse-to_string id h), ne_panics)
    where
      ne_panics : (s : Str) → LabelId.from_str ulids s ≢ panics
      ne_panics [] q = cc
      ne_panics (c ∷ s) q = ground arith

  -- A descriptor that is named after a metric id of 128 bits parses to that id, and one that is
  -- named after a label id parses to none, both with no panic: the two kinds of names never meet.
  pub parse_desc_metric_id-name :
      (d : Desc) (id : ℕ)
      → id < 2 ^ 128
      → (d.fq_name ≡ MetricId.name ulids id → parse_desc_metric_id d ≡ returns (some id))
        × (d.fq_name ≡ LabelId.name ulids id → parse_desc_metric_id d ≡ returns none)
        × (MetricId.name ulids id ≢ LabelId.name ulids id)
  unfolding parse_desc_metric_id MetricId.from_str MetricId.name LabelId.name
  parse_desc_metric_id-name d id h = (
    (λ e.
        rw (e, parse_desc_metric_id)
          (ground (arith, ulids.to_string_len id h, ulids.parse-to_string id h))),
    (λ e. rw (e, parse_desc_metric_id) (ground (arith, ulids.to_string_len id h))),
    λ e. ground arith,
  )

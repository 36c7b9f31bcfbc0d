-- ===== src/Metrics/Registry/Gather.antt =====
-- How `MetricRegistry` gathers metrics: all of them, or those of given descriptors, labels or names.
pub mod ByName
pub mod Retain
pub mod ByLabel
use oysterpack.Prelude.{
  ℕ, zero, suc, ◌+◌, Bool, true, false, not, ◌&&◌, ◌||◌, List, [], ◌∷◌, map, filter, any, all,
  flat_map, is_empty, length, get_elem?, remove_at, Option, none, some, if◌then◌else◌, ◌==◌, nat_eq,
  list_eq, contains, HashMap, contains_key,
}
use oysterpack.Text.{Str}
use oysterpack.Metrics.Types.{LabelPair, pair_beq, Desc, Metric, MetricFamily, Collector}
use oysterpack.Metrics.Ids.Codec.{RustyUlid}
use oysterpack.Metrics.Ids.MetricId
use oysterpack.Metrics.Registry.{Prometheus, MetricRegistry}
use oysterpack.Metrics.Registry.Queries.{find_descs, find_collectors, contains_label_pair}

module _ {F : Type 0} where
  -- `label_count_matches()`, `const_labels_match()` and the variable labels, at the first metric.
  metric_matches : Desc → Metric F → Bool
  metric_matches desc metric =
      let counts =
        length metric.label == length desc.const_label_pairs + length desc.variable_labels in
      let consts =
        all (λ (p : LabelPair). any (λ (q : LabelPair). pair_beq q p) metric.label)
          desc.const_label_pairs in
      if counts && consts
      then all (λ (l : Str). contains l (map (λ (p : LabelPair). p.name) metric.label))
          desc.variable_labels
      else false

  first_matches : Desc → List (Metric F) → Bool
  first_matches desc [] = true
  first_matches desc (metric ∷ _) =
      if is_empty desc.const_label_pairs then true else metric_matches desc metric

  family_matches : Desc → MetricFamily F → Bool
  family_matches desc mf = if desc.fq_name == mf.name then first_matches desc mf.metric else false

  -- The `while` loop of `gather_for_labels`, which takes a round for each metric.
  unfoldable pub retain : ℕ → (Metric F → Bool) → List (Metric F) → ℕ → List (Metric F)
  retain zero keep metrics i = metrics
  retain (suc fuel) keep metrics i = elim (get_elem? metrics i) [
    | none ↦ metrics
    | some metric ↦ elim (keep metric) [
      | true ↦ retain fuel keep metrics (i + 1)
      | false ↦ retain fuel keep (remove_at metrics i) i
    ]
  ]

  -- `metric.get_label().iter().any(contains_label_pair)`
  abbrev pub contains_label : HashMap Str Str → Metric F → Bool
  contains_label labels metric = any (contains_label_pair labels) metric.label

  narrow : HashMap Str Str → MetricFamily F → MetricFamily F
  unfolding retain
  narrow labels mf = record mf {
    metric = retain (length mf.metric) (contains_label labels) mf.metric 0;
  }

-- Has a descriptor a label that is asked for?
desc_has_label : HashMap Str Str → Desc → Bool
desc_has_label labels d =
    any (λ (label : Str). contains_key label labels) d.variable_labels
    || any (contains_label_pair labels) d.const_label_pairs

module _ {F : Type 0} {prometheus : Prometheus F} where
  unfoldable pub gather : MetricRegistry prometheus → List (MetricFamily F)
  gather r = prometheus.gather r.registry

  unfoldable pub gather_for_desc_ids : List ℕ → MetricRegistry prometheus → List (MetricFamily F)
  unfolding family_matches first_matches metric_matches find_descs
  gather_for_desc_ids desc_ids r =
      let asked = λ (desc : Desc). any (λ (id : ℕ). id == desc.id) desc_ids in
      let descs = find_descs asked r in
      let found = filter (λ (c : Collector F). any asked c.desc) r.metric_collectors in
      if is_empty desc_ids
      then []
      else if is_empty descs
      then []
      else filter (λ (mf : MetricFamily F). any (λ desc. family_matches desc mf) descs)
          (flat_map (λ (c : Collector F). c.collect) found)

  unfoldable pub gather_for_labels :
      HashMap Str Str → MetricRegistry prometheus → List (MetricFamily F)
  unfolding narrow desc_has_label find_collectors
  gather_for_labels labels r =
      let found = find_collectors (λ ds. any (desc_has_label labels) ds) r in
      if is_empty labels
      then []
      else filter (λ (mf : MetricFamily F). not (is_empty mf.metric))
          (map (narrow labels) (flat_map (λ (c : Collector F). c.collect) found))

  unfoldable pub gather_for_desc_names :
      List Str → MetricRegistry prometheus → List (MetricFamily F)
  gather_for_desc_names desc_names r =
      let contains_name = λ (name : Str). contains name desc_names in
      let found =
        filter (λ (c : Collector F). any (λ (desc : Desc). contains_name desc.fq_name) c.desc)
          r.metric_collectors in
      if is_empty desc_names
      then []
      else flat_map
          (λ (c : Collector F). filter (λ (mf : MetricFamily F). contains_name mf.name) c.collect)
          found

  unfoldable pub gather_for_metric_ids :
      RustyUlid → List ℕ → MetricRegistry prometheus → List (MetricFamily F)
  unfolding gather_for_desc_names
  gather_for_metric_ids ulids metric_ids r =
      if is_empty metric_ids
      then []
      else gather_for_desc_names (map (λ id. MetricId.name ulids id) metric_ids) r

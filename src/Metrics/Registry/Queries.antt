-- ===== src/Metrics/Registry/Queries.antt =====
-- The queries of `MetricRegistry`: descriptors, collectors and their counts.
pub mod Counts
pub mod Lookups
use oysterpack.Prelude.{
  ℕ, suc, Bool, true, false, List, [], ◌∷◌, map, filter, any, flat_map, first, is_empty, length,
  Option, none, some, if◌then◌else◌, ◌==◌, nat_eq, list_eq, contains, HashMap, get, insert_found,
}
use oysterpack.Text.{Str}
use oysterpack.Metrics.Types.{LabelPair, Desc, Collector}
use oysterpack.Metrics.Ids.Codec.{RustyUlid}
use oysterpack.Metrics.Ids.MetricId
use oysterpack.Metrics.Registry.{Prometheus, MetricRegistry}

-- `labels.get(pair.get_name()).map_or(false, |value| value == pair.get_value())`
value_is : Str → Option Str → Bool
value_is v none = false
value_is v (some w) = w == v

unfoldable pub contains_label_pair : HashMap Str Str → LabelPair → Bool
unfolding value_is
contains_label_pair labels p = value_is p.value (get p.name labels)

-- The collectors, unless there are none.
abbrev pub unless_empty {ℓ} : {A : Type ℓ} → List A → Option (List A)
unless_empty [] = none
unless_empty (x ∷ xs) = some (x ∷ xs)

-- `Vec::dedup_by` with equality of names, behind an element that stays.
dedup_names : Desc → List Desc → List Desc
dedup_names kept [] = []
dedup_names kept (d ∷ ds) =
    let same = dedup_names kept ds in
    let other = d ∷ dedup_names d ds in if d.fq_name == kept.fq_name then same else other

dedup_all : List Desc → List Desc
unfolding dedup_names
dedup_all [] = []
dedup_all (d ∷ ds) = d ∷ dedup_names d ds

module _ {F : Type 0} {prometheus : Prometheus F} where
  unfoldable pub descs : MetricRegistry prometheus → List Desc
  descs r = flat_map (λ (c : Collector F). c.desc) r.metric_collectors

  unfoldable pub find_descs : (Desc → Bool) → MetricRegistry prometheus → List Desc
  find_descs wanted r = filter wanted (flat_map (λ (c : Collector F). c.desc) r.metric_collectors)

  unfoldable pub descs_for_labels : HashMap Str Str → MetricRegistry prometheus → List Desc
  unfolding find_descs contains_label_pair
  descs_for_labels labels r =
      find_descs (λ (desc : Desc). any (contains_label_pair labels) desc.const_label_pairs) r

  unfoldable pub find_collectors :
      (List Desc → Bool) → MetricRegistry prometheus → List (Collector F)
  find_collectors wanted r = filter (λ (c : Collector F). wanted c.desc) r.metric_collectors

  unfoldable pub collectors_for_desc_id : ℕ → MetricRegistry prometheus → Option (Collector F)
  unfolding find_collectors
  collectors_for_desc_id desc_id r =
      first (find_collectors (λ ds. any (λ (desc : Desc). desc.id == desc_id) ds) r)

  unfoldable pub collectors_for_desc_ids :
      List ℕ → MetricRegistry prometheus → HashMap ℕ (Collector F)
  collectors_for_desc_ids desc_ids r = insert_found (λ id. collectors_for_desc_id id r) desc_ids []

  unfoldable pub collectors : MetricRegistry prometheus → List (Collector F)
  collectors r = r.metric_collectors

  unfoldable pub collector_count : MetricRegistry prometheus → ℕ
  collector_count r = length r.metric_collectors

  unfoldable pub metric_family_count : MetricRegistry prometheus → ℕ
  unfolding dedup_all
  metric_family_count r =
      length (dedup_all (flat_map (λ (c : Collector F). c.desc) r.metric_collectors))

  module _ (ulids : RustyUlid) where
    unfoldable pub descs_for_metric_ids : List ℕ → MetricRegistry prometheus → List Desc
    unfolding find_descs
    descs_for_metric_ids metric_ids r =
        let metric_names = map (λ id. MetricId.name ulids id) metric_ids in
        find_descs (λ (desc : Desc). contains desc.fq_name metric_names) r

    unfoldable pub descs_for_metric_id : ℕ → MetricRegistry prometheus → List Desc
    unfolding find_descs
    descs_for_metric_id metric_id r =
        let metric_name = MetricId.name ulids metric_id in
        find_descs (λ (desc : Desc). desc.fq_name == metric_name) r

    unfoldable pub collectors_for_metric_id : ℕ → MetricRegistry prometheus → List (Collector F)
    unfolding find_collectors
    collectors_for_metric_id metric_id r =
        let metric_name = MetricId.name ulids metric_id in
        find_collectors (λ ds. any (λ (desc : Desc). desc.fq_name == metric_name) ds) r

    unfoldable pub collectors_for_metric_ids :
        List ℕ → MetricRegistry prometheus → HashMap ℕ (List (Collector F))
    collectors_for_metric_ids metric_ids r =
        insert_found (λ id. unless_empty (collectors_for_metric_id id r)) metric_ids []

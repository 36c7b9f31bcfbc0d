-- ===== src/Metrics/Registry/Gather/ByLabel.antt =====
-- No metric with one of the labels is missed by `gather_for_labels`.
use oysterpack.Prelude.{
  ◌≡◌, ◌≢◌, refl, ap, sym, ◌∙◌, Bool, true, false, not, ◌||◌, List, [], ◌∷◌, ◌++◌, map, filter, any,
  flat_map, is_empty, list_eq, nat_eq, list_beq_iff, contains, All, All-map, filter-of_none,
  any_mono, HashMap, get, contains_key, arith, Bool-cases, Option-cases, contains_key-of_get, inl,
  inr,
}
use oysterpack.Text.{Str}
use oysterpack.Metrics.Types.{LabelPair, pair_beq, Desc, Metric, MetricFamily, Collector}
use oysterpack.Metrics.Registry.{Prometheus, MetricRegistry}
use oysterpack.Metrics.Registry.Queries.{contains_label_pair}
use oysterpack.Metrics.Registry.Gather.{contains_label, narrow, desc_has_label, gather_for_labels}
use oysterpack.Metrics.Registry.Gather.Retain.{retain-filter}

-- Has a descriptor this label, as a variable label of the name or as a constant label?
abbrev pub desc_has : LabelPair → Desc → Bool
desc_has p d =
    contains p.name d.variable_labels || any (λ (q : LabelPair). pair_beq q p) d.const_label_pairs

contains_label_pair-key :
    (labels : HashMap Str Str) (p : LabelPair)
    → contains_label_pair labels p ≡ true
    → contains_key p.name labels ≡ true
unfolding contains_label_pair
contains_label_pair-key labels p h = elim (Option-cases (get p.name labels)) [
  | inl e ↦ absurd (ground arith)
  | inr (v, e) ↦ contains_key-of_get p.name labels e
]

variable-asked :
    (labels : HashMap Str Str) (n : Str) (vs : List Str)
    → contains_key n labels ≡ true
    → contains n vs ≡ true
    → any (λ (l : Str). contains_key l labels) vs ≡ true
variable-asked labels n [] k h = cc
variable-asked labels n (v ∷ vs) k h = ground (arith, list_beq_iff v n, variable-asked labels n vs)

const-asked :
    (labels : HashMap Str Str) (p : LabelPair) (ps : List LabelPair)
    → contains_label_pair labels p ≡ true
    → any (λ (q : LabelPair). pair_beq q p) ps ≡ true
    → any (contains_label_pair labels) ps ≡ true
unfolding contains_label_pair
const-asked labels p [] k h = cc
const-asked labels p (q ∷ ps) k h =
    ground
      (arith, list_beq_iff q.name p.name, list_beq_iff q.value p.value, const-asked labels p ps)

desc_has-asked :
    (labels : HashMap Str Str) (p : LabelPair) (d : Desc)
    → contains_label_pair labels p ≡ true
    → desc_has p d ≡ true
    → desc_has_label labels d ≡ true
unfolding desc_has_label
desc_has-asked labels p d k h = ground (
  arith,
  contains_label_pair-key labels p k,
  variable-asked labels p.name d.variable_labels,
  const-asked labels p d.const_label_pairs,
)

no_label :
    (labels : HashMap Str Str) (ds : List Desc) (ps : List LabelPair)
    → any (desc_has_label labels) ds ≡ false
    → All (λ p. any (desc_has p) ds ≡ true) ps
    → any (contains_label_pair labels) ps ≡ false
no_label labels ds [] a h = refl
no_label labels ds (p ∷ ps) a h = elim (Bool-cases (contains_label_pair labels p)) [
  | inl k ↦
      let asked =
        any_mono (desc_has p) (desc_has_label labels) (λ d e. desc_has-asked labels p d k e) ds
          h.0 in
      absurd (cc)
  | inr k ↦ rw k (no_label labels ds ps a h.1)
]

module _ {F : Type 0} where
  -- A collector collects only metrics with labels that it describes.
  abbrev pub IsLabelled : Collector F → Type 0
  IsLabelled c =
      All
        (λ (mf : MetricFamily F).
          All (λ (m : Metric F). All (λ p. any (desc_has p) c.desc ≡ true) m.label) mf.metric)
        c.collect

  -- The families, each with its metrics that have one of the labels, but none that is left empty.
  abbrev pub with_labels : HashMap Str Str → List (MetricFamily F) → List (MetricFamily F)
  with_labels labels mfs =
      filter (λ (mf : MetricFamily F). not (is_empty mf.metric))
        (map
          (λ (mf : MetricFamily F). record mf { metric = filter (contains_label labels) mf.metric })
          mfs)

  abbrev nonempty : MetricFamily F → Bool
  nonempty mf = not (is_empty mf.metric)

  narrow-filter :
      (labels : HashMap Str Str) (mf : MetricFamily F)
      → narrow labels mf ≡ record mf { metric = filter (contains_label labels) mf.metric }
  unfolding narrow
  narrow-filter labels mf = rw (retain-filter (contains_label labels) mf.metric) refl

  narrow-with_labels :
      (labels : HashMap Str Str) (mfs : List (MetricFamily F))
      → filter nonempty (map (narrow labels) mfs) ≡ with_labels labels mfs
  narrow-with_labels labels [] = refl
  narrow-with_labels labels (mf ∷ mfs) =
      rw (narrow-filter labels mf, narrow-with_labels labels mfs) refl

  with_labels-append :
      (labels : HashMap Str Str) (xs ys : List (MetricFamily F))
      → with_labels labels (xs ++ ys) ≡ with_labels labels xs ++ with_labels labels ys
  with_labels-append labels [] ys = refl
  with_labels-append labels (x ∷ xs) ys =
      elim (Bool-cases (is_empty (filter (contains_label labels) x.metric))) [
        | inl e ↦ rw e (with_labels-append labels xs ys)
        | inr e ↦ rw e (
            ap (◌∷◌ (record x { metric = filter (contains_label labels) x.metric }))
              (with_labels-append labels xs ys))
      ]

  passed_over :
      (labels : HashMap Str Str) (ds : List Desc) (mfs : List (MetricFamily F))
      → any (desc_has_label labels) ds ≡ false
      → All
          (λ (mf : MetricFamily F).
            All (λ (m : Metric F). All (λ p. any (desc_has p) ds ≡ true) m.label) mf.metric)
          mfs
      → with_labels labels mfs ≡ []
  passed_over labels ds [] a h = refl
  passed_over labels ds (mf ∷ mfs) a h =
      let gone =
        filter-of_none (contains_label labels) mf.metric
          (All-map _ _ (λ (m : Metric F) l. no_label labels ds m.label a l) mf.metric h.0) in
      rw gone (passed_over labels ds mfs a h.1)

  found_every :
      (labels : HashMap Str Str) (cs : List (Collector F))
      → All IsLabelled cs
      → with_labels labels (
          flat_map
            (λ (c : Collector F). c.collect)
            (filter (λ (c : Collector F). any (desc_has_label labels) c.desc) cs))
        ≡ with_labels labels (flat_map (λ (c : Collector F). c.collect) cs)
  found_every labels [] h = refl
  found_every labels (c ∷ cs) h =
      let all = flat_map (λ (c : Collector F). c.collect) cs in
      let found = filter (λ (c : Collector F). any (desc_has_label labels) c.desc) cs in
      let some = flat_map (λ (c : Collector F). c.collect) found in
      elim (Bool-cases (any (desc_has_label labels) c.desc)) [
        | inl e ↦ rw e (
            with_labels-append labels c.collect some
            ∙ ap (◌++◌ (with_labels labels c.collect)) (found_every labels cs h.1)
            ∙ sym (with_labels-append labels c.collect all))
        | inr e ↦ rw e (
            found_every labels cs h.1
            ∙ sym (
                with_labels-append labels c.collect all
                ∙ ap (λ l. l ++ with_labels labels all)
                    (passed_over labels c.desc c.collect e h.0)))
      ]

  -- With at least one label, the result is what a scan of all that the registered collectors
  -- collect would give: each family with its metrics that have one of the labels, in order, and no
  -- empty family. That holds though only some collectors are asked to collect, and though the loop
  -- removes from the vector that it walks.
  pub gather_for_labels_complete :
      {prometheus : Prometheus F} (labels : HashMap Str Str) (r : MetricRegistry prometheus)
      → labels ≢ []
      → All IsLabelled r.metric_collectors
      → gather_for_labels labels r
        ≡ with_labels labels (flat_map (λ (c : Collector F). c.collect) r.metric_collectors)
  unfolding gather_for_labels
  gather_for_labels_complete [] r n h = absurd (n refl)
  gather_for_labels_complete ((k, v) ∷ rest) r n h =
      let labels = (k, v) ∷ rest in
      let found =
        filter (λ (c : Collector F). any (desc_has_label labels) c.desc) r.metric_collectors in
      narrow-with_labels labels (flat_map (λ (c : Collector F). c.collect) found)
      ∙ found_every labels r.metric_collectors h

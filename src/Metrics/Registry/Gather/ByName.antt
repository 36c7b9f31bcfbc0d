-- ===== src/Metrics/Registry/Gather/ByName.antt =====
-- `gather_for_desc_names` looks at few collectors and finds every family of the names.
use oysterpack.Prelude.{
  ◌≡◌, refl, ap, sym, Bool, true, false, List, [], ◌∷◌, ◌++◌, filter, any, flat_map, ◌==◌, list_eq,
  nat_eq, list_beq_iff, contains, All, All-map, filter-of_none, filter-append, arith, Bool-cases,
  inl, inr,
}
use oysterpack.Text.{Str}
use oysterpack.Metrics.Types.{Desc, MetricFamily, Collector}
use oysterpack.Metrics.Registry.{Prometheus, MetricRegistry}
use oysterpack.Metrics.Registry.Gather.{gather_for_desc_names}

abbrev asks : List Str → List Desc → Bool
asks names ds = any (λ (d : Desc). contains d.fq_name names) ds

-- Where no descriptor is asked for, no described name is.
not_asked :
    (names : List Str) (ds : List Desc) (n : Str)
    → asks names ds ≡ false
    → any (λ (d : Desc). d.fq_name == n) ds ≡ true
    → contains n names ≡ false
not_asked names [] n a h = cc
not_asked names (d ∷ ds) n a h = ground (arith, list_beq_iff d.fq_name n, not_asked names ds n)

module _ {F : Type 0} where
  -- A collector collects only families that it describes.
  abbrev pub IsDescribed : Collector F → Type 0
  IsDescribed c =
      All (λ (mf : MetricFamily F). any (λ (d : Desc). d.fq_name == mf.name) c.desc ≡ true)
        c.collect

  abbrev named : List Str → MetricFamily F → Bool
  named names mf = contains mf.name names

  -- A collector that is passed over has no family of the names.
  passed_over :
      (names : List Str) (c : Collector F)
      → IsDescribed c
      → asks names c.desc ≡ false
      → filter (named names) c.collect ≡ []
  passed_over names c d a =
      filter-of_none (named names) c.collect
        (All-map _ _ (λ mf h. not_asked names c.desc mf.name a h) c.collect d)

  found_every :
      (names : List Str) (cs : List (Collector F))
      → All IsDescribed cs
      → flat_map (λ c. filter (named names) c.collect) (filter (λ c. asks names c.desc) cs)
        ≡ filter (named names) (flat_map (λ c. c.collect) cs)
  found_every names [] d = refl
  found_every names (c ∷ cs) d =
      rw (filter-append (named names) c.collect (flat_map (λ (c : Collector F). c.collect) cs))
        (elim (Bool-cases (asks names c.desc)) [
          | inl e ↦ rw e (ap (◌++◌ (filter (named names) c.collect)) (found_every names cs d.1))
          | inr e ↦ rw (e, passed_over names c d.0 e) (found_every names cs d.1)
        ])

  no_names : (mfs : List (MetricFamily F)) → filter (named []) mfs ≡ []
  no_names [] = refl
  no_names (mf ∷ mfs) = no_names mfs

  -- The families of the names, out of all that the registered collectors collect, are found, in
  -- order, though collectors that describe none of the names are not asked to collect.
  pub gather_for_desc_names_complete :
      {prometheus : Prometheus F} (names : List Str) (r : MetricRegistry prometheus)
      → All IsDescribed r.metric_collectors
      → gather_for_desc_names names r
        ≡ filter
            (λ (mf : MetricFamily F). contains mf.name names)
            (flat_map (λ (c : Collector F). c.collect) r.metric_collectors)
  unfolding gather_for_desc_names
  gather_for_desc_names_complete [] r d =
      sym (no_names (flat_map (λ (c : Collector F). c.collect) r.metric_collectors))
  gather_for_desc_names_complete (n ∷ names) r d = found_every (n ∷ names) r.metric_collectors d

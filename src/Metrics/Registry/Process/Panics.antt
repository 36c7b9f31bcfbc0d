-- ===== src/Metrics/Registry/Process/Panics.antt =====
-- When the process metrics cannot be read.
use oysterpack.Prelude.{
  ◌≡◌, refl, subst, ◌↔◌, inl, inr, Bool, true, false, List, [], ◌∷◌, arith, Outcome, returns,
  panics, if◌then◌else◌, any, In, ◌==◌, nat_eq, list_eq,
}
use oysterpack.Metrics.Types.{Metric, MetricFamily, Collector}
use oysterpack.Metrics.Registry.Process.{
  ProcessMetrics, with_first, collect_family, collect_families, collect, metric_names,
  process_cpu_seconds_total, process_open_fds, process_max_fds, process_virtual_memory_bytes,
  process_resident_memory_bytes, process_start_time_seconds,
}

module _ {F : Type 0} where
  -- A family that is read, under one of the six names, and has no metric.
  abbrev pub IsUnreadable : MetricFamily F → Type 0
  IsUnreadable mf = (any (λ n. mf.name == n) metric_names ≡ true) × (mf.metric ≡ [])

  with_first-panics :
      (ms : List (Metric F)) (store : Metric F → ProcessMetrics F)
      → (with_first ms store ≡ panics) ↔ (ms ≡ [])
  unfolding with_first
  with_first-panics [] store = (λ _. refl, λ _. refl)
  with_first-panics (m ∷ ms) store = (λ e. absurd (ground arith), λ e. absurd (ground arith))

  -- One of the six tests, and the others.
  tested :
      (b : Bool) (ms : List (Metric F)) (store : Metric F → ProcessMetrics F)
      (others : Outcome (ProcessMetrics F)) (in_others : Bool)
      → ((others ≡ panics) ↔ ((in_others ≡ true) × (ms ≡ [])))
      → ((if b then with_first ms store else others) ≡ panics)
        ↔ (((if b then true else in_others) ≡ true) × (ms ≡ []))
  tested true ms store others in_others h =
      (λ e. (refl, (with_first-panics ms store).0 e), λ p. (with_first-panics ms store).1 p.1)
  tested false ms store others in_others h = h

  collect_family-panics :
      (mf : MetricFamily F) (pm : ProcessMetrics F)
      → (collect_family mf pm ≡ panics) ↔ IsUnreadable mf
  unfolding collect_family
  collect_family-panics mf pm = tested (mf.name == process_cpu_seconds_total) mf.metric _ _ _ (
      tested (mf.name == process_open_fds) mf.metric _ _ _ (
        tested (mf.name == process_max_fds) mf.metric _ _ _ (
          tested (mf.name == process_virtual_memory_bytes) mf.metric _ _ _ (
            tested (mf.name == process_resident_memory_bytes) mf.metric _ _ _ (
              tested (mf.name == process_start_time_seconds) mf.metric _ _ false
                (λ e. absurd (ground arith), λ p. absurd (ground (arith, p.0))))))))

  collect_families-panics :
      (mfs : List (MetricFamily F)) (pm : ProcessMetrics F)
      → (collect_families mfs pm ≡ panics) ↔ ((mf : MetricFamily F) × In mf mfs × IsUnreadable mf)
  unfolding collect_families
  collect_families-panics [] pm = (λ e. absurd (ground arith), λ h. absurd h.1)
  collect_families-panics (mf ∷ mfs) pm =
      go (collect_family mf pm) refl (λ pm'. collect_families-panics mfs pm')
    where
      go :
          (o : Outcome (ProcessMetrics F))
          → collect_family mf pm ≡ o
          → ((pm' : ProcessMetrics F)
              → (collect_families mfs pm' ≡ panics)
                ↔ ((x : MetricFamily F) × In x mfs × IsUnreadable x))
          → ((elim o [ returns pm' ↦ collect_families mfs pm' | panics ↦ panics ]) ≡ panics)
            ↔ ((x : MetricFamily F) × In x (mf ∷ mfs) × IsUnreadable x)
      go (returns pm') e behind = (
        λ k. let (x, m, u) = (behind pm').0 k in (x, inr m, u),
        λ h. elim h.1 [
          | inl q ↦
              absurd (ground (arith, e, (collect_family-panics mf pm).1 (subst IsUnreadable q h.2)))
          | inr m ↦ (behind pm').1 (h.0, m, h.2)
        ],
      )
      go panics e behind = (λ _. (mf, inl refl, (collect_family-panics mf pm).0 e), λ _. refl)

  pub collect-panics :
      (default : F) (c : Collector F)
      → (collect default c ≡ panics) ↔ ((mf : MetricFamily F) × In mf c.collect × IsUnreadable mf)
  unfolding collect
  collect-panics default c = collect_families-panics c.collect _

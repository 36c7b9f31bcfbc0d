-- ===== src/Metrics/Registry/Process/First.antt =====
-- The process collector stays the first collector of a registry.
use oysterpack.Prelude.{
  ◌≡◌, refl, ap, subst, ◌∙◌, inl, inr, true, List, [], ◌∷◌, ◌++◌, Result, ok, err, is_ok, returns,
  panics, ◌↔◌, In, Bool-cases,
}
use oysterpack.Metrics.Types.{MetricFamily, Collector, Error}
use oysterpack.Metrics.Registry.{Prometheus, MetricRegistry, register}
use oysterpack.Metrics.Registry.Register.{IsValid, register-IsValid}
use oysterpack.Metrics.Registry.Process.{
  collect, gather_process_metrics, collect_first, default, unwrapped,
}
use oysterpack.Metrics.Registry.Process.Panics.{IsUnreadable, collect-panics}

module _ {F : Type 0} (prometheus : Prometheus F) where
  -- A history of calls of `register`, whatever each answers.
  abbrev pub registers : List (Collector F) → MetricRegistry prometheus → MetricRegistry prometheus
  registers [] r = r
  registers (c ∷ cs) r = registers cs (register prometheus c r).1

  abbrev First : Collector F → MetricRegistry prometheus → Type 0
  First p r = (cs : List (Collector F)) × (r.metric_collectors ≡ p ∷ cs)

  register-First :
      (p c : Collector F) (r : MetricRegistry prometheus)
      → IsValid prometheus r
      → First p r
      → First p (register prometheus c r).1
  register-First p c r v (cs, e) =
      let (_, _, pushed, kept) = register-IsValid prometheus c r v in
      elim (Bool-cases (is_ok (register prometheus c r).0)) [
        | inl h ↦ (cs ++ c ∷ [], pushed h ∙ ap (λ l. l ++ c ∷ []) e)
        | inr h ↦ (cs, kept h ∙ e)
      ]

  registers-First :
      (p : Collector F) (cs : List (Collector F)) (r : MetricRegistry prometheus)
      → IsValid prometheus r
      → First p r
      → IsValid prometheus (registers cs r) × First p (registers cs r)
  registers-First p [] r v f = (v, f)
  registers-First p (c ∷ cs) r v f =
      registers-First p cs (register prometheus c r).1 (register-IsValid prometheus c r v).0
        (register-First p c r v f)

  abbrev empty : MetricRegistry prometheus
  empty = record { registry = prometheus.new; metric_collectors = [] }

  default-registered :
      (p : Collector F) (r : MetricRegistry prometheus)
      → default prometheus p ≡ returns r
      → (is_ok (register prometheus p empty).0 ≡ true) × ((register prometheus p empty).1 ≡ r)
  unfolding default unwrapped
  default-registered p r h = of_unwrapped (register prometheus p empty) h
    where
      of_unwrapped :
          (x : Result (Collector F) Error × MetricRegistry prometheus)
          → unwrapped prometheus x ≡ returns r
          → (is_ok x.0 ≡ true) × (x.1 ≡ r)
      of_unwrapped (ok _, s) h = (refl, cc)
      of_unwrapped (err e, s) h = cc

  -- Whatever is registered with a default registry afterwards, with whatever answers, the registry
  -- stays valid, and the process metrics are those of the process collector, which `collectors[0]`
  -- finds; and they panic exactly when the process collector collects a family that has one of the
  -- six names and no metric.
  pub gather_process_metrics-registers :
      (p : Collector F) (r : MetricRegistry prometheus) (cs : List (Collector F)) (zero : F)
      → default prometheus p ≡ returns r
      → IsValid prometheus (registers cs r)
        × (gather_process_metrics prometheus zero (registers cs r) ≡ collect zero p)
        × ((gather_process_metrics prometheus zero (registers cs r) ≡ panics)
            ↔ ((mf : MetricFamily F) × In mf p.collect × IsUnreadable mf))
  unfolding gather_process_metrics collect_first
  gather_process_metrics-registers p r cs zero h =
      let (accepted, same) = default-registered p r h in
      let (valid, _, pushed, _) = register-IsValid prometheus p empty tt in
      let first : First p r = subst (First p) same ([], pushed accepted) in
      let (v, f) = registers-First p cs r (subst (IsValid prometheus) same valid) first in
      (
        v,
        rw (f.1, gather_process_metrics, collect_first) refl,
        rw (f.1, gather_process_metrics, collect_first) (collect-panics zero p),
      )

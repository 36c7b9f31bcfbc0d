-- ===== src/Metrics/Registry/Register.antt =====
-- What `MetricRegistry::register` does to the registry.
use oysterpack.Prelude.{
  ◌≡◌, refl, ap, inl, inr, ◌↔◌, true, false, List, [], ◌∷◌, ◌++◌, Result, ok, err, is_ok,
  Result-cases, All,
}
use oysterpack.Metrics.Types.{Collector, Error}
use oysterpack.Metrics.Registry.{
  Prometheus, MetricRegistry, refused, validate, push_accepted, register,
}
use oysterpack.Metrics.Registry.Valid.{IsValidDesc, validate-ok_iff}

module _ {F : Type 0} (prometheus : Prometheus F) where
  -- Every registered collector describes itself within the limits.
  abbrev pub IsValid : MetricRegistry prometheus → Type 0
  IsValid r = All (λ (c : Collector F). All IsValidDesc c.desc) r.metric_collectors

  All-snoc :
      (c : Collector F) (cs : List (Collector F))
      → All (λ (c : Collector F). All IsValidDesc c.desc) cs
      → All IsValidDesc c.desc
      → All (λ (c : Collector F). All IsValidDesc c.desc) (cs ++ c ∷ [])
  All-snoc c [] h v = (v, tt)
  All-snoc c (d ∷ cs) h v = (h.0, All-snoc c cs h.1 v)

  module _ (c : Collector F) (r : MetricRegistry prometheus) where
    abbrev offered : Result (Unit {0}) Error × prometheus.State
    offered = prometheus.register c r.registry

    abbrev pushed : MetricRegistry prometheus
    pushed = record { registry = offered.1; metric_collectors = r.metric_collectors ++ c ∷ [] }

    -- The three ways through `register`.
    register_cases {ℓ} :
        (P : Result (Collector F) Error × MetricRegistry prometheus → Type ℓ)
        → ((e : Error) → validate c.desc ≡ err e → P (err e, r))
        → ((e : Error)
            → validate c.desc ≡ ok tt
            → offered.0 ≡ err e
            → P (err e, record r { registry = offered.1 }))
        → (validate c.desc ≡ ok tt → offered.0 ≡ ok tt → P (ok c, pushed))
        → P (register prometheus c r)
    unfolding register push_accepted
    register_cases P invalid refused accepted = elim (Result-cases (validate c.desc)) [
      | inl (_, h) ↦
          rw (h, register)
            (elim (Result-cases offered.0) [
              | inl (_, o) ↦ rw (o, push_accepted) (accepted h o)
              | inr (e, o) ↦ rw (o, push_accepted) (refused e h o)
            ])
      | inr (e, h) ↦ rw (h, register) (invalid e h)
    ]

  pub register-IsValid :
      (c : Collector F) (r : MetricRegistry prometheus)
      → IsValid r
      → let (result, r') = register prometheus c r in
        IsValid r'
        × ((is_ok result ≡ true)
            ↔ (All IsValidDesc c.desc × (is_ok (prometheus.register c r.registry).0 ≡ true)))
        × (is_ok result ≡ true → r'.metric_collectors ≡ r.metric_collectors ++ c ∷ [])
        × (is_ok result ≡ false → r'.metric_collectors ≡ r.metric_collectors)
  register-IsValid c r v =
      let valid = validate-ok_iff c.desc in
      register_cases c r
        (λ x.
          IsValid x.1
          × ((is_ok x.0 ≡ true)
              ↔ (All IsValidDesc c.desc × (is_ok (prometheus.register c r.registry).0 ≡ true)))
          × (is_ok x.0 ≡ true → x.1.metric_collectors ≡ r.metric_collectors ++ c ∷ [])
          × (is_ok x.0 ≡ false → x.1.metric_collectors ≡ r.metric_collectors))
        (λ e h. (v, (λ q. cc, λ q. cc (valid.1 q.0, ap is_ok h)), λ q. cc, λ q. refl))
        (λ e h o. (v, (λ q. cc, λ q. cc (q.1, ap is_ok o)), λ q. cc, λ q. refl))
        (λ h o. (
          All-snoc c r.metric_collectors v (valid.0 (ap is_ok h)),
          (λ q. (valid.0 (ap is_ok h), ap is_ok o), λ q. refl),
          λ q. refl,
          λ q. cc,
        ))

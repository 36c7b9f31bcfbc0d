-- ===== src/Metrics/Registry/Queries/Lookups.antt =====
-- The maps that `collectors_for_desc_ids` and `collectors_for_metric_ids` build.
use oysterpack.Prelude.{
  some-injective, Bool, ◌∷◌, any, All, In, nat_beq_iff, ◌==◌, ◌↔◌, ◌++◌, inl, inr, true, false,
  Bool-cases, arith, ap, sym, subst, filter, first, ℕ, ◌≡◌, refl, List, [], Option, none, some,
  if◌then◌else◌, nat_eq, contains, get, get-insert_found, or_else,
}
use oysterpack.Metrics.Types.{Desc, Collector}
use oysterpack.Metrics.Ids.Codec.{RustyUlid}
use oysterpack.Metrics.Registry.{Prometheus, MetricRegistry}
use oysterpack.Metrics.Registry.Queries.{
  unless_empty, find_collectors, collectors_for_desc_id, collectors_for_desc_ids,
  collectors_for_metric_id, collectors_for_metric_ids,
}

or_else-none {ℓ} : {A : Type ℓ} (o : Option A) → or_else o none ≡ o
or_else-none none = refl
or_else-none (some a) = refl

-- A collector with a descriptor of the id.
abbrev pub Describes : {F : Type 0} → ℕ → Collector F → Type 0
Describes id c = (d : Desc) × In d c.desc × (d.id ≡ id)

-- The collector is in the list, and none before it describes the id.
abbrev pub IsFirst : {F : Type 0} → ℕ → Collector F → List (Collector F) → Type 0
IsFirst {F} id c cs =
    (before : List (Collector F)) × (after : List (Collector F)) × (cs ≡ before ++ c ∷ after)
    × Describes id c
    × All (λ b. Describes id b → ⊥) before

any-id :
    (id : ℕ) (ds : List Desc)
    → (any (λ (desc : Desc). desc.id == id) ds ≡ true) ↔ ((d : Desc) × In d ds × (d.id ≡ id))
any-id id [] = (λ e. absurd (ground arith), λ h. absurd h.1)
any-id id (d ∷ ds) = elim (Bool-cases (d.id == id)) [
  | inl k ↦ rw k (λ _. (d, inl refl, (nat_beq_iff d.id id).0 k), λ _. refl)
  | inr k ↦ rw k (
    λ e. let (x, m, q) = (any-id id ds).0 e in (x, inr m, q),
    λ h. elim h.1 [
      | inl q ↦ absurd (ground (arith, k, nat_beq_iff d.id id, ap (λ (x : Desc). x.id) q, h.2))
      | inr m ↦ (any-id id ds).1 (h.0, m, h.2)
    ],
  )
]

abbrev rest_of : {F : Type 0} → List (Collector F) → List (Collector F)
rest_of [] = []
rest_of (c ∷ cs) = cs

abbrev describes : {F : Type 0} → ℕ → Collector F → Bool
describes id c = any (λ (desc : Desc). desc.id == id) c.desc

not_both : {b : Bool} → b ≡ true → b ≡ false → ⊥
not_both e f = ground (arith, e, f)

module _ {F : Type 0} (id : ℕ) where
  -- A collector in front that describes the id is the first one.
  at_head :
      (x c : Collector F) (cs before after : List (Collector F))
      → describes id x ≡ true
      → x ∷ cs ≡ before ++ c ∷ after
      → All (λ b. Describes id b → ⊥) before
      → x ≡ c
  at_head x c cs [] after k e none_before = some-injective (ap first e)
  at_head x c cs (b ∷ bs) after k e none_before =
      absurd (
        none_before.0 (subst (Describes id) (some-injective (ap first e)) ((any-id id x.desc).0 k)))

  behind_head :
      (x c : Collector F) (cs before after : List (Collector F))
      → describes id x ≡ false
      → x ∷ cs ≡ before ++ c ∷ after
      → Describes id c
      → All (λ b. Describes id b → ⊥) before
      → IsFirst id c cs
  behind_head x c cs [] after k e d none_before = absurd (
      not_both ((any-id id x.desc).1 (subst (Describes id) (sym (some-injective (ap first e))) d))
        k)
  behind_head x c cs (b ∷ bs) after k e d none_before = (bs, after, ap rest_of e, d, none_before.1)

  first-IsFirst :
      (cs : List (Collector F)) (c : Collector F)
      → (first (filter (describes id) cs) ≡ some c) ↔ IsFirst id c cs
  first-IsFirst [] c = (λ e. absurd (ground arith), λ (b, a, e, _, _). absurd (nothing b a e))
    where
      nothing : (b a : List (Collector F)) → [] ≡ b ++ c ∷ a → ⊥
      nothing [] a e = ground arith
      nothing (x ∷ b) a e = ground arith
  first-IsFirst (x ∷ cs) c = elim (Bool-cases (describes id x)) [
    | inl k ↦ rw k (
      λ e. (
        [],
        cs,
        ap (λ y. y ∷ cs) (some-injective e),
        subst (Describes id) (some-injective e) ((any-id id x.desc).0 k),
        tt,
      ),
      λ (b, a, e, _, n). ap some (at_head x c cs b a k e n),
    )
    | inr k ↦ rw k (
      λ e.
          let (b, a, q, d, n) = (first-IsFirst cs c).0 e in
          (x ∷ b, a, ap (λ l. x ∷ l) q, d, (λ h. not_both ((any-id id x.desc).1 h) k, n)),
      λ (b, a, e, d, n). (first-IsFirst cs c).1 (behind_head x c cs b a k e d n),
    )
  ]

module _ {F : Type 0} {prometheus : Prometheus F} (r : MetricRegistry prometheus) where
  collectors_for_desc_ids-contains :
      (ids : List ℕ) (id : ℕ)
      → get id (collectors_for_desc_ids ids r)
        ≡ (if contains id ids then collectors_for_desc_id id r else none)
  unfolding collectors_for_desc_ids
  collectors_for_desc_ids-contains ids id =
      rw (get-insert_found (λ i. collectors_for_desc_id i r) ids [] id)
        (rw (or_else-none (collectors_for_desc_id id r)) refl)

  -- The map holds a collector under an id exactly when the id is asked for, however often and in
  -- whatever order, and the collector is the first of the registered ones with a descriptor of the id.
  pub collectors_for_desc_ids-get :
      (ids : List ℕ) (id : ℕ) (c : Collector F)
      → (get id (collectors_for_desc_ids ids r) ≡ some c)
        ↔ ((contains id ids ≡ true) × IsFirst id c r.metric_collectors)
  unfolding collectors_for_desc_id find_collectors
  collectors_for_desc_ids-get ids id c = elim (Bool-cases (contains id ids)) [
    | inl k ↦ rw (collectors_for_desc_ids-contains ids id) (
        rw k (
          λ e. (refl, (first-IsFirst id r.metric_collectors c).0 e),
          λ h. (first-IsFirst id r.metric_collectors c).1 h.1,
        ))
    | inr k ↦
        rw (collectors_for_desc_ids-contains ids id)
          (rw k (λ e. absurd (ground arith), λ h. absurd (ground (arith, h.0))))
  ]

  -- Of metric ids: what the single lookup finds, but an id with no collector has no entry.
  pub collectors_for_metric_ids-get :
      (ulids : RustyUlid) (ids : List ℕ) (id : ℕ)
      → get id (collectors_for_metric_ids ulids ids r)
        ≡ (if contains id ids then unless_empty (collectors_for_metric_id ulids id r) else none)
  unfolding collectors_for_metric_ids
  collectors_for_metric_ids-get ulids ids id =
      rw (get-insert_found (λ i. unless_empty (collectors_for_metric_id ulids i r)) ids [] id)
        (rw (or_else-none (unless_empty (collectors_for_metric_id ulids id r))) refl)

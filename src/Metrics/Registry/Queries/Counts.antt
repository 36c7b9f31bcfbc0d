-- ===== src/Metrics/Registry/Queries/Counts.antt =====
-- What `metric_family_count` counts.
use oysterpack.Prelude.{
  ℕ, suc, ◌≤◌, ◌≡◌, ◌↔◌, refl, true, List, [], ◌∷◌, map, length, if◌then◌else◌, ◌==◌, nat_eq,
  list_eq, contains, flat_map, arith, list_beq_iff,
}
use oysterpack.Text.{Str}
use oysterpack.Metrics.Types.{Desc, Collector}
use oysterpack.Metrics.Registry.{Prometheus, MetricRegistry}
use oysterpack.Metrics.Registry.Queries.{dedup_names, dedup_all, descs, metric_family_count}

-- The fully qualified names, one for each descriptor.
abbrev pub names : List Desc → List Str
names ds = map (λ (d : Desc). d.fq_name) ds

-- How many different names there are.
abbrev pub distinct : List Str → ℕ
distinct [] = 0
distinct (n ∷ ns) = let rest = distinct ns in if contains n ns then rest else suc rest

-- Equal names stand together.
abbrev pub Grouped : List Str → Type 0
Grouped [] = Unit
Grouped (n ∷ []) = Unit
Grouped (n ∷ m ∷ ns) = (contains n (m ∷ ns) ≡ true → n ≡ m) × Grouped (m ∷ ns)

-- How many runs of equal names there are.
runs : Str → List Str → ℕ
runs n [] = 1
runs n (m ∷ ns) = let rest = runs m ns in if m == n then rest else suc rest

runs-dedup :
    (d : Desc) (ds : List Desc) → suc (length (dedup_names d ds)) ≡ runs d.fq_name (names ds)
unfolding dedup_names runs
runs-dedup d [] = refl
runs-dedup d (x ∷ ds) =
    ground (arith, list_beq_iff x.fq_name d.fq_name, runs-dedup d ds, runs-dedup x ds)

distinct-le-runs : (n : Str) (ns : List Str) → distinct (n ∷ ns) ≤ runs n ns
unfolding runs
distinct-le-runs n [] = omega arith
distinct-le-runs n (m ∷ ns) = ground (arith, list_beq_iff m n, distinct-le-runs m ns)

Grouped-runs : (n : Str) (ns : List Str) → Grouped (n ∷ ns) → runs n ns ≡ distinct (n ∷ ns)
unfolding runs
Grouped-runs n [] g = refl
Grouped-runs n (m ∷ ns) g = ground (arith, list_beq_iff m n, Grouped-runs m ns g.1)

runs-Grouped : (n : Str) (ns : List Str) → runs n ns ≡ distinct (n ∷ ns) → Grouped (n ∷ ns)
unfolding runs
runs-Grouped n [] e = tt
runs-Grouped n (m ∷ ns) e = (
  ground (arith, list_beq_iff m n, distinct-le-runs m ns),
  runs-Grouped m ns (ground (arith, list_beq_iff m n, distinct-le-runs m ns)),
)

dedup_all-Grouped :
    (ds : List Desc)
    → (distinct (names ds) ≤ length (dedup_all ds))
      × ((length (dedup_all ds) ≡ distinct (names ds)) ↔ Grouped (names ds))
unfolding dedup_all
dedup_all-Grouped [] = (omega arith, (λ e. tt, λ g. refl))
dedup_all-Grouped (d ∷ ds) = rw (runs-dedup d ds) (
  distinct-le-runs d.fq_name (names ds),
  (runs-Grouped d.fq_name (names ds), Grouped-runs d.fq_name (names ds)),
)

-- `metric_family_count` is at least the number of different names of the registered descriptors,
-- and is that number exactly when descriptors of one name stand together.
pub metric_family_count-Grouped :
    {F : Type 0} {prometheus : Prometheus F} (r : MetricRegistry prometheus)
    → (distinct (names (descs r)) ≤ metric_family_count r)
      × ((metric_family_count r ≡ distinct (names (descs r))) ↔ Grouped (names (descs r)))
unfolding metric_family_count descs
metric_family_count-Grouped {F} r =
    dedup_all-Grouped (flat_map (λ (c : Collector F). c.desc) r.metric_collectors)

-- ===== src/Examples/Timers.antt =====
-- Buckets of timers, from durations of which one is given twice.
use oysterpack.Prelude.{
  ◌<◌, ◌≡◌, refl, sym, ap, ◌∙◌, subst, ◌≢◌, ◌↔◌, ◌⊎◌, inl, inr, Bool, true, ◌&&◌, List, [], ◌∷◌,
  map, arith, ok, err, returns, ltb, if◌then◌else◌, Bool-cases, any, All, In, ◌==◌, nat_eq, list_eq,
  nat_beq_iff,
}
use oysterpack.Metrics.Types.{msg, no_durations, start_not_positive}
use oysterpack.Metrics.Timers.{Duration, as_nanos, duration_as_secs_f64, timer_buckets}
use oysterpack.Metrics.Timers.Durations.{timer_buckets_cases}
use oysterpack.Metrics.Timers.Durations
use oysterpack.Examples.Numbers.{
  exact, long, short, put, sort, In-put, In-sort, Ordered, sort-Ordered,
}

abbrev same : Duration → Duration → Bool
same d e = d.secs == e.secs && d.nanos == e.nanos

same_iff : (d e : Duration) → (same d e ≡ true) ↔ (d ≡ e)
same_iff d e = (
  λ h.
      let same_secs : d.secs ≡ e.secs = ground (arith, h, nat_beq_iff d.secs e.secs) in
      let same_nanos : d.nanos ≡ e.nanos =
        ground (arith, h, nat_beq_iff d.secs e.secs, nat_beq_iff d.nanos e.nanos) in
      ap (λ s. record { secs = s; nanos = d.nanos }) same_secs
      ∙ ap (λ n. record { secs = e.secs; nanos = n }) same_nanos,
  λ q. ground (
    arith,
    (nat_beq_iff d.secs e.secs).1 (ap (λ (x : Duration). x.secs) q),
    (nat_beq_iff d.nanos e.nanos).1 (ap (λ (x : Duration). x.nanos) q),
  ),
)

-- A set of durations, listed.
abbrev distinct : List Duration → List Duration
distinct [] = []
distinct (d ∷ ds) = let rest = distinct ds in if any (same d) rest then rest else d ∷ rest

any-same : (d : Duration) (ds : List Duration) → (any (same d) ds ≡ true) ↔ In d ds
any-same d [] = (λ e. absurd (ground arith), λ m. absurd m)
any-same d (e ∷ ds) = elim (Bool-cases (same d e)) [
  | inl k ↦ rw k (λ _. inl ((same_iff d e).0 k), λ _. refl)
  | inr k ↦ rw k (
    λ h. inr ((any-same d ds).0 h),
    λ m. elim m [
      | inl q ↦ absurd (ground (arith, k, (same_iff d e).1 q))
      | inr n ↦ (any-same d ds).1 n
    ],
  )
]

In-distinct : (ds : List Duration) (d : Duration) → In d (distinct ds) ↔ In d ds
In-distinct [] d = (λ m. m, λ m. m)
In-distinct (x ∷ ds) d = elim (Bool-cases (any (same x) (distinct ds))) [
  | inl k ↦ rw k (
    λ m. inr ((In-distinct ds d).0 m),
    λ m. elim m [
      | inl q ↦ subst (λ y. In y (distinct ds)) (sym q) ((any-same x (distinct ds)).0 k)
      | inr n ↦ (In-distinct ds d).1 n
    ],
  )
  | inr k ↦ rw k (
    λ m. elim m [ inl q ↦ inl q | inr n ↦ inr ((In-distinct ds d).0 n) ],
    λ m. elim m [ inl q ↦ inl q | inr n ↦ inr ((In-distinct ds d).1 n) ],
  )
]

distinct-IsUnique : (ds : List Duration) → Durations.IsUnique exact (distinct ds)
distinct-IsUnique [] = tt
distinct-IsUnique (x ∷ ds) = elim (Bool-cases (any (same x) (distinct ds))) [
  | inl k ↦ rw k (distinct-IsUnique ds)
  | inr k ↦
      rw k (λ m. absurd (ground (arith, k, (any-same x (distinct ds)).1 m)), distinct-IsUnique ds)
]

abbrev by_nanos : List Duration → List Duration
by_nanos ds = sort as_nanos ds

in_order : (ds : List Duration) → Ordered as_nanos ds → Durations.Sorted exact ds
in_order [] h = tt
in_order (x ∷ []) h = tt
in_order (x ∷ y ∷ xs) h = (h.0, in_order (y ∷ xs) h.1)

put-IsUnique :
    (x : Duration) (ds : List Duration)
    → (In x ds → ⊥)
    → Durations.IsUnique exact ds
    → Durations.IsUnique exact (put as_nanos x ds)
put-IsUnique x [] new u = (new, tt)
put-IsUnique x (d ∷ ds) new u = elim (Bool-cases (ltb (as_nanos d) (as_nanos x))) [
  | inl k ↦ rw k (
    λ m. elim ((In-put as_nanos x d ds).0 m) [ inl q ↦ new (inl (sym q)) | inr n ↦ u.0 n ],
    put-IsUnique x ds (λ m. new (inr m)) u.1,
  )
  | inr k ↦ rw k (new, u)
]

sort-IsUnique :
    (ds : List Duration) → Durations.IsUnique exact ds → Durations.IsUnique exact (by_nanos ds)
sort-IsUnique [] u = tt
sort-IsUnique (d ∷ ds) u =
    put-IsUnique d (by_nanos ds) (λ m. u.0 ((In-sort as_nanos ds d).0 m)) (sort-IsUnique ds u.1)

abbrev durations : List Duration
durations = long ∷ short ∷ long ∷ []

-- The duration that is given twice is one bucket.
timer_buckets-twice :
    timer_buckets exact distinct by_nanos durations ≡ returns (ok (7 ∷ 4_000_000_005 ∷ []))
unfolding timer_buckets duration_as_secs_f64
timer_buckets-twice = refl

timer_buckets_cases_example :
    ((durations ≡ [])
      × (timer_buckets exact distinct by_nanos durations ≡ returns (err (msg no_durations))))
    ⊎ (((d : Duration) × In d durations × (as_nanos d ≡ 0))
        × (timer_buckets exact distinct by_nanos durations
            ≡ returns (err (msg start_not_positive))))
    ⊎ ((durations ≢ [])
        × All (λ d. 0 < as_nanos d) durations
        × ((us : List Duration) × Durations.Rising exact us
            × ((d : Duration) → In d us ↔ In d durations)
            × (timer_buckets exact distinct by_nanos durations
                ≡ returns (ok (map (λ d. duration_as_secs_f64 exact d) us)))))
timer_buckets_cases_example =
    timer_buckets_cases exact distinct by_nanos In-distinct (λ ds d. In-sort as_nanos ds d)
      (λ ds. in_order (by_nanos ds) (sort-Ordered as_nanos ds)) distinct-IsUnique sort-IsUnique
      durations (omega arith, (omega arith, (omega arith, tt)))

-- ===== src/Metrics/Timers/Durations.antt =====
-- What the durations become.
use oysterpack.Prelude.{
  ℕ, ◌+◌, ◌*◌, ◌≤◌, ◌<◌, ◌≡◌, ◌≢◌, refl, sym, ap, subst, ◌∙◌, ◌⊎◌, inl, inr, ◌↔◌, List, [], ◌∷◌,
  map, ok, err, ◌==◌, nat_eq, returns, All, All-of_In, In, List-cases, All-In, arith, Bool-cases,
}
use oysterpack.Metrics.Types.{msg, no_durations, start_not_positive}
use oysterpack.Metrics.Timers.{
  Duration, Float, as_nanos, nanos_per_sec, duration_as_secs_f64, timer_buckets, of_sorted,
}

module _ (f : Float) where
  -- Where the arithmetic of floats is exact, and `nanos_of` reads a number of seconds in
  -- nanoseconds, the result is too large by the whole seconds of the duration: it is the duration
  -- exactly when the duration is below one second.
  pub duration_as_secs_f64-exceeds :
      (nanos_of : f.F → ℕ)
      → ((n : ℕ) → nanos_of (f.of_nat n) ≡ n * nanos_per_sec)
      → ((a b : f.F) → nanos_of (f.add a b) ≡ nanos_of a + nanos_of b)
      → ((n : ℕ) → nanos_of (f.div (f.of_nat n) (f.of_nat nanos_per_sec)) ≡ n)
      → (d : Duration)
      → (nanos_of (duration_as_secs_f64 f d) ≡ as_nanos d + d.secs * nanos_per_sec)
        × ((nanos_of (duration_as_secs_f64 f d) ≡ as_nanos d) ↔ (d.secs ≡ 0))
  unfolding duration_as_secs_f64
  duration_as_secs_f64-exceeds nanos_of of_nat add div d =
      let nps : ℕ = nanos_per_sec in
      let e : nanos_of (duration_as_secs_f64 f d) ≡ as_nanos d + d.secs * nanos_per_sec =
        add (f.of_nat d.secs) (f.div (f.of_nat (as_nanos d)) (f.of_nat nps))
        ∙ (omega (arith, of_nat d.secs, div (as_nanos d))) in
      (e, (λ h. omega (arith, e, h), λ h. omega (arith, e, h)))

  -- No duration is above the next.
  abbrev pub Sorted : List Duration → Type 0
  Sorted [] = Unit
  Sorted (d ∷ []) = Unit
  Sorted (d ∷ e ∷ ds) = (as_nanos d ≤ as_nanos e) × Sorted (e ∷ ds)

  Sorted-least :
      (d : Duration) (ds : List Duration) → Sorted (d ∷ ds) → All (λ e. as_nanos d ≤ as_nanos e) ds
  Sorted-least d [] s = tt
  Sorted-least d (e ∷ ds) s = (s.0, least_of d e ds s.0 (Sorted-least e ds s.1))
    where
      least_of :
          (d e : Duration) (ds : List Duration)
          → as_nanos d ≤ as_nanos e
          → All (λ x. as_nanos e ≤ as_nanos x) ds
          → All (λ x. as_nanos d ≤ as_nanos x) ds
      least_of d e [] h a = tt
      least_of d e (x ∷ ds) h a = (omega (arith, a.0), least_of d e ds h a.1)

  -- Each duration is below the next.
  abbrev pub Rising : List Duration → Type 0
  Rising [] = Unit
  Rising (d ∷ []) = Unit
  Rising (d ∷ e ∷ ds) = (as_nanos d < as_nanos e) × Rising (e ∷ ds)

  -- No duration stands twice in the list.
  abbrev pub IsUnique : List Duration → Type 0
  IsUnique [] = Unit
  IsUnique (d ∷ ds) = (In d ds → ⊥) × IsUnique ds

  -- Durations of as many nanoseconds are the same, as those beside the seconds are below 10^9.
  as_nanos-injective :
      (d e : Duration)
      → d.nanos < nanos_per_sec
      → e.nanos < nanos_per_sec
      → as_nanos d ≡ as_nanos e
      → d ≡ e
  as_nanos-injective d e h k q =
      let same_secs : d.secs ≡ e.secs = omega (arith, h, k, q) in
      let same_nanos : d.nanos ≡ e.nanos = omega (arith, q, same_secs) in
      ap (λ s. record { secs = s; nanos = d.nanos }) same_secs
      ∙ ap (λ n. record { secs = e.secs; nanos = n }) same_nanos

  Rising-unique :
      (ds : List Duration)
      → All (λ d. d.nanos < nanos_per_sec) ds
      → Sorted ds
      → IsUnique ds
      → Rising ds
  Rising-unique [] a s u = tt
  Rising-unique (d ∷ []) a s u = tt
  Rising-unique (d ∷ e ∷ ds) a s u =
      let differ : as_nanos d ≢ as_nanos e = λ q. u.0 (inl (as_nanos-injective d e a.0 a.1.0 q)) in
      (omega (arith, s.0, differ), Rising-unique (e ∷ ds) a.1 s.1 u.1)

  module _ (distinct sort : List Duration → List Duration)
      (distinct_In : (ds : List Duration) (d : Duration) → In d (distinct ds) ↔ In d ds)
      (sort_In : (ds : List Duration) (d : Duration) → In d (sort ds) ↔ In d ds)
      (sorts : (ds : List Duration) → Sorted (sort ds))
      (distinct-IsUnique : (ds : List Duration) → IsUnique (distinct ds))
      (sort-IsUnique : (ds : List Duration) → IsUnique ds → IsUnique (sort ds)) where
    -- A list with a member is not empty.
    no_member : (ds : List Duration) → ((d : Duration) → In d ds → ⊥) → ds ≡ []
    no_member [] h = refl
    no_member (d ∷ ds) h = absurd (h d (inl refl))

    abbrev Positive : Duration → Type 0
    Positive d = 0 < as_nanos d

    All-Positive :
        (m : Duration) (ms ds : List Duration)
        → Sorted (m ∷ ms)
        → ((d : Duration) → In d ds → In d (m ∷ ms))
        → as_nanos m ≢ 0
        → All Positive ds
    All-Positive m ms ds s h n = All-of_In Positive ds (λ d i. omega (
      arith,
      n,
      All-In (λ e. as_nanos m ≤ as_nanos e) (m ∷ ms) (omega arith, Sorted-least m ms s) (h d i),
    ))

    In-sorted_distinct : (ds : List Duration) (d : Duration) → In d (sort (distinct ds)) ↔ In d ds
    In-sorted_distinct ds d = (
      λ m. (distinct_In ds d).0 ((sort_In (distinct ds) d).0 m),
      λ m. (sort_In (distinct ds) d).1 ((distinct_In ds d).1 m),
    )

    sorted_distinct :
        (ds : List Duration) → All (λ d. d.nanos < nanos_per_sec) ds → Rising (sort (distinct ds))
    sorted_distinct ds valid =
        Rising-unique (sort (distinct ds))
          (All-of_In (λ d. d.nanos < nanos_per_sec) (sort (distinct ds))
            (λ d m. All-In (λ d. d.nanos < nanos_per_sec) ds valid ((In-sorted_distinct ds d).0 m)))
          (sorts (distinct ds)) (sort-IsUnique (distinct ds) (distinct-IsUnique ds))

    -- For durations of less than 10^9 nanoseconds beside their seconds, where the set of the
    -- durations lists each of them once and the sort sorts and keeps what it is given:
    -- `timer_buckets` never panics, and is an error in two cases and no other: no durations are
    -- given, or one of them is zero. Otherwise it answers what `duration_as_secs_f64` makes of each
    -- of the durations that rise strictly and are the given ones, each of them once.
    pub timer_buckets_cases :
        (ds : List Duration)
        → All (λ d. d.nanos < nanos_per_sec) ds
        → ((ds ≡ []) × (timer_buckets f distinct sort ds ≡ returns (err (msg no_durations))))
          ⊎ (((d : Duration) × In d ds × (as_nanos d ≡ 0))
              × (timer_buckets f distinct sort ds ≡ returns (err (msg start_not_positive))))
          ⊎ ((ds ≢ [])
              × All (λ d. 0 < as_nanos d) ds
              × ((us : List Duration) × Rising us
                  × ((d : Duration) → In d us ↔ In d ds)
                  × (timer_buckets f distinct sort ds
                      ≡ returns (ok (map (λ d. duration_as_secs_f64 f d) us)))))
    timer_buckets_cases ds valid = elim (List-cases (distinct ds)) [
      | inl e ↦ inl (
        no_member ds (λ d i. subst (In d) e ((distinct_In ds d).1 i)),
        unfold timer_buckets in rw (e, timer_buckets) refl,
      )
      | inr (x, xs, e) ↦ elim (List-cases (sort (x ∷ xs))) [
        | inl q ↦ absurd (subst (In x) q ((sort_In (x ∷ xs) x).1 (inl refl)))
        | inr (m, ms, q) ↦
            let member : (d : Duration) → In d ds → In d (m ∷ ms) = λ d i.
              subst (In d) q ((sort_In (x ∷ xs) d).1 (subst (In d) e ((distinct_In ds d).1 i))) in
            let m_in : In m ds =
              (distinct_In ds m).0
                (subst (In m) (sym e) ((sort_In (x ∷ xs) m).0 (subst (In m) (sym q) (inl refl)))) in
            elim (Bool-cases (as_nanos m == 0)) [
              | inl z ↦ inr (
                  inl (
                    (m, m_in, ground arith),
                    unfold timer_buckets of_sorted in
                        rw (e, timer_buckets) (rw (q, of_sorted) (rw z refl)),
                  ))
              | inr z ↦ inr (
                  inr (
                    (λ h. subst (In m) h m_in),
                    All-Positive m ms ds (subst Sorted q (sorts (x ∷ xs))) member (ground arith),
                    (
                      sort (distinct ds),
                      sorted_distinct ds valid,
                      In-sorted_distinct ds,
                      unfold timer_buckets of_sorted in
                          rw (e, timer_buckets) (rw (q, of_sorted) (rw z refl)),
                    ),
                  ))
            ]
      ]
    ]

-- ===== src/Examples/Numbers.antt =====
-- Buckets and durations.
use oysterpack.Prelude.{
  ℕ, suc, ◌+◌, ◌*◌, ◌/◌, ◌≤◌, ◌≡◌, ◌≢◌, refl, ◌⊎◌, inl, inr, ◌↔◌, List, [], ◌∷◌, length, ok, err,
  ltb, if◌then◌else◌, In, Bool-cases, arith,
}
use oysterpack.Metrics.Types.{msg, no_buckets}
use oysterpack.Metrics.Buckets.{
  check_buckets, dedupe_pass, Increasing, check_buckets-Increasing, Sorted, Covered,
  check_buckets-Covered,
}
use oysterpack.Metrics.Timers.{Duration, Float, as_nanos, nanos_per_sec, duration_as_secs_f64}
use oysterpack.Metrics.Timers.Durations.{duration_as_secs_f64-exceeds}

-- Insertion sort by a measure.
module _ {A : Type 0} (of : A → ℕ) where
  abbrev pub put : A → List A → List A
  put x [] = x ∷ []
  put x (y ∷ ys) = let rest = put x ys in if ltb (of y) (of x) then y ∷ rest else x ∷ y ∷ ys

  abbrev pub sort : List A → List A
  sort [] = []
  sort (x ∷ xs) = put x (sort xs)

  length-put : (x : A) (xs : List A) → length (put x xs) ≡ suc (length xs)
  length-put x [] = refl
  length-put x (y ∷ ys) = ground (arith, length-put x ys)

  length-sort : (xs : List A) → length (sort xs) ≡ length xs
  length-sort [] = refl
  length-sort (x ∷ xs) = omega (arith, length-put x (sort xs), length-sort xs)

  pub In-put : (x a : A) (xs : List A) → In a (put x xs) ↔ ((a ≡ x) ⊎ In a xs)
  In-put x a [] = (λ m. m, λ m. m)
  In-put x a (y ∷ ys) = elim (Bool-cases (ltb (of y) (of x))) [
    | inl e ↦ rw e (
      (λ m. elim m [
        | inl q ↦ inr (inl q)
        | inr n ↦ elim ((In-put x a ys).0 n) [ inl q ↦ inl q | inr k ↦ inr (inr k) ]
      ]),
      λ m. elim m [
        | inl q ↦ inr ((In-put x a ys).1 (inl q))
        | inr n ↦ elim n [ inl q ↦ inl q | inr k ↦ inr ((In-put x a ys).1 (inr k)) ]
      ],
    )
    | inr e ↦ rw e (λ m. m, λ m. m)
  ]

  pub In-sort : (xs : List A) (a : A) → In a (sort xs) ↔ In a xs
  In-sort [] a = (λ m. m, λ m. m)
  In-sort (x ∷ xs) a = (
    λ m. elim ((In-put x a (sort xs)).0 m) [ inl q ↦ inl q | inr k ↦ inr ((In-sort xs a).0 k) ],
    λ m. elim m [
      | inl q ↦ (In-put x a (sort xs)).1 (inl q)
      | inr k ↦ (In-put x a (sort xs)).1 (inr ((In-sort xs a).1 k))
    ],
  )

  abbrev pub Ordered : List A → Type 0
  Ordered [] = Unit
  Ordered (x ∷ []) = Unit
  Ordered (x ∷ y ∷ ys) = (of x ≤ of y) × Ordered (y ∷ ys)

  put-Ordered : (x : A) (xs : List A) → Ordered xs → Ordered (put x xs)
  put-Ordered x [] h = tt
  put-Ordered x (y ∷ []) h = ground arith
  put-Ordered x (y ∷ z ∷ ys) h = ground (arith, put-Ordered x (z ∷ ys))

  pub sort-Ordered : (xs : List A) → Ordered (sort xs)
  sort-Ordered [] = tt
  sort-Ordered (x ∷ xs) = put-Ordered x (sort xs) (sort-Ordered xs)

abbrev id : ℕ → ℕ
id n = n

Ordered-Sorted : (xs : List ℕ) → Ordered id xs → Sorted ltb xs
Ordered-Sorted [] h = tt
Ordered-Sorted (x ∷ []) h = tt
Ordered-Sorted (x ∷ y ∷ xs) h = (ground arith, Ordered-Sorted (y ∷ xs) h.1)

abbrev given : List ℕ
given = 3 ∷ 1 ∷ 2 ∷ 2 ∷ 3 ∷ 3 ∷ []

abbrev kept : List ℕ
kept = 1 ∷ 2 ∷ 3 ∷ []

checked : check_buckets ltb (sort id) given ≡ ok kept
unfolding check_buckets dedupe_pass
checked = refl

check_buckets-Increasing_example :
    ((given ≡ []) × (check_buckets ltb (sort id) given ≡ err (msg no_buckets)))
    ⊎ ((out : List ℕ) × (check_buckets ltb (sort id) given ≡ ok out)
        × (out ≢ [])
        × Increasing ltb out)
check_buckets-Increasing_example = check_buckets-Increasing ltb (sort id) (length-sort id) given

check_buckets-Covered_example : Covered ltb 2 kept
check_buckets-Covered_example =
    check_buckets-Covered ltb (λ a. ground arith) (λ a b c h k. ground arith) (sort id)
      (λ xs. Ordered-Sorted (sort id xs) (sort-Ordered id xs)) (λ x xs m. (In-sort id xs x).1 m)
      given kept checked 2 (inr (inr (inl refl)))

-- A float as its number of nanoseconds.
abbrev pub exact : Float
exact = record {
  F = ℕ;
  of_nat = λ n. n * 1_000_000_000;
  add = λ a b. a + b;
  div = λ a b. a * 1_000_000_000 / b;
}

abbrev pub long : Duration
long = record { secs = 2; nanos = 5 }

abbrev pub short : Duration
short = record { secs = 0; nanos = 7 }

duration_as_secs_f64-exceeds_example :
    (duration_as_secs_f64 exact long ≡ as_nanos long + long.secs * nanos_per_sec)
    × ((duration_as_secs_f64 exact long ≡ as_nanos long) ↔ (long.secs ≡ 0))
duration_as_secs_f64-exceeds_example =
    duration_as_secs_f64-exceeds exact id (λ n. refl) (λ a b. refl) (λ n. omega arith) long

-- ===== src/Metrics/Buckets/Rising.antt =====
-- The buckets of `check_buckets` rise strictly, whatever the comparison and the sort do.
use oysterpack.Prelude.{
  ℕ, zero, suc, ◌≤◌, ◌≡◌, ◌≢◌, refl, ap, Bool, true, false, List, [], ◌∷◌, ok, err, if◌then◌else◌,
  length, arith, Bool-cases, inl, inr, ◌⊎◌, lt→ltb,
}
use oysterpack.Metrics.Buckets.Defs.{dedupe_rounds, check_buckets}
use oysterpack.Metrics.Types.{msg, no_buckets}
use oysterpack.Metrics.Buckets.Sweep.{sweep, drops, dedupe_pass-sweep}

module _ {F : Type 0} (lt : F → F → Bool) where
  -- Each bucket is below the next.
  abbrev pub Increasing : List F → Type 0
  Increasing [] = Unit
  Increasing (a ∷ []) = Unit
  Increasing (a ∷ b ∷ xs) = (lt a b ≡ true) × Increasing (b ∷ xs)

  -- A pass that removes nothing saw rising buckets, and one that removes something is shorter.
  drops-Increasing : (p : F) (rest : List F) → drops lt p rest ≡ false → Increasing (p ∷ rest)
  drops-Increasing p [] h = tt
  drops-Increasing p (x ∷ []) h = ground arith
  drops-Increasing p (x ∷ y ∷ rest) h = ground (arith, drops-Increasing x (y ∷ rest))

  sweep-kept : (p : F) (rest : List F) → drops lt p rest ≡ false → sweep lt p rest ≡ p ∷ rest
  sweep-kept p [] h = refl
  sweep-kept p (x ∷ []) h = ground arith
  sweep-kept p (x ∷ y ∷ rest) h = ground (arith, sweep-kept x (y ∷ rest))

  length-sweep-le : (p : F) (rest : List F) → length (sweep lt p rest) ≤ suc (length rest)
  length-sweep-le p [] = omega arith
  length-sweep-le p (x ∷ []) = ground arith
  length-sweep-le p (x ∷ y ∷ rest) =
      ground (arith, length-sweep-le x (y ∷ rest), length-sweep-le y rest)

  length-sweep-lt :
      (p : F) (rest : List F) → drops lt p rest ≡ true → length (sweep lt p rest) ≤ length rest
  length-sweep-lt p [] h = cc
  length-sweep-lt p (x ∷ []) h = ground arith
  length-sweep-lt p (x ∷ y ∷ rest) h =
      ground (arith, length-sweep-lt x (y ∷ rest), length-sweep-le y rest)

  sweep-ne-nil : (p : F) (rest : List F) → sweep lt p rest ≢ []
  sweep-ne-nil p [] h = cc
  sweep-ne-nil p (x ∷ []) h = ground arith
  sweep-ne-nil p (x ∷ y ∷ rest) h = ground arith

  -- One round of `dedupe` by the sweep.
  pub dedupe_rounds-step :
      (fuel : ℕ) (p x : F) (rest : List F)
      → dedupe_rounds lt (suc fuel) (p ∷ x ∷ rest) ≡ (
          if drops lt p (x ∷ rest)
          then dedupe_rounds lt fuel (sweep lt p (x ∷ rest))
          else p ∷ x ∷ rest)
  unfolding dedupe_rounds
  dedupe_rounds-step fuel p x rest =
      rw (lt→ltb 1 (length (p ∷ x ∷ rest)) (omega arith), dedupe_rounds)
        (rw (dedupe_pass-sweep lt p (x ∷ rest), dedupe_rounds)
          (elim (Bool-cases (drops lt p (x ∷ rest))) [
            | inl e ↦ rw e refl
            | inr e ↦ rw (e, sweep-kept p (x ∷ rest) e) refl
          ]))

  -- The length of the vector is fuel enough.
  dedupe_rounds-Increasing :
      (fuel : ℕ) (buckets : List F)
      → length buckets ≤ fuel
      → Increasing (dedupe_rounds lt fuel buckets)
  dedupe_rounds-Increasing zero [] h = unfold dedupe_rounds in tt
  dedupe_rounds-Increasing zero (p ∷ rest) h = elim h [ ]
  dedupe_rounds-Increasing (suc fuel) [] h = unfold dedupe_rounds in tt
  dedupe_rounds-Increasing (suc fuel) (p ∷ []) h = unfold dedupe_rounds in tt
  dedupe_rounds-Increasing (suc fuel) (p ∷ x ∷ rest) h =
      rw (dedupe_rounds-step fuel p x rest) (elim (Bool-cases (drops lt p (x ∷ rest))) [
        | inl e ↦ rw e (
            dedupe_rounds-Increasing fuel (sweep lt p (x ∷ rest))
              (omega (arith, length-sweep-lt p (x ∷ rest) e)))
        | inr e ↦ rw e (drops-Increasing p (x ∷ rest) e)
      ])

  dedupe_rounds-ne-nil :
      (fuel : ℕ) (buckets : List F) → buckets ≢ [] → dedupe_rounds lt fuel buckets ≢ []
  dedupe_rounds-ne-nil zero buckets h = unfold dedupe_rounds in h
  dedupe_rounds-ne-nil (suc fuel) [] h = absurd (h refl)
  dedupe_rounds-ne-nil (suc fuel) (p ∷ []) h = unfold dedupe_rounds in h
  dedupe_rounds-ne-nil (suc fuel) (p ∷ x ∷ rest) h =
      rw (dedupe_rounds-step fuel p x rest) (elim (Bool-cases (drops lt p (x ∷ rest))) [
        | inl e ↦
            rw e (dedupe_rounds-ne-nil fuel (sweep lt p (x ∷ rest)) (sweep-ne-nil p (x ∷ rest)))
        | inr e ↦ rw e (λ q. cc)
      ])

  -- For every comparison and every sort, NaN included: no buckets are an error, and any others give
  -- at least one bucket, each below the next. The source's recursion ends, for the fuel is enough.
  pub check_buckets-Increasing :
      (sort : List F → List F)
      → ((xs : List F) → length (sort xs) ≡ length xs)
      → (buckets : List F)
      → ((buckets ≡ []) × (check_buckets lt sort buckets ≡ err (msg no_buckets)))
        ⊎ ((out : List F) × (check_buckets lt sort buckets ≡ ok out) × (out ≢ []) × Increasing out)
  unfolding check_buckets
  check_buckets-Increasing sort keeps [] = inl (refl, refl)
  check_buckets-Increasing sort keeps (b ∷ buckets) =
      let xs = sort (b ∷ buckets) in
      let some_left : xs ≢ [] = λ e. absurd (omega (arith, ap length e, keeps (b ∷ buckets))) in
      inr (
        dedupe_rounds lt (length xs) xs,
        refl,
        dedupe_rounds-ne-nil (length xs) xs some_left,
        dedupe_rounds-Increasing (length xs) xs (omega arith),
      )

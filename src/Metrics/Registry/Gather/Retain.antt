-- ===== src/Metrics/Registry/Gather/Retain.antt =====
-- The loop of `gather_for_labels`, which removes from the vector that it walks, is a filter.
use mathlib.Core.List.{append_assoc}
use oysterpack.Prelude.{
  ℕ, zero, suc, ◌+◌, ◌≤◌, ◌≡◌, refl, ap, Bool, List, [], ◌∷◌, ◌++◌, filter, length, length-append,
  get_elem?, remove_at, none, get_elem?-middle, if◌then◌else◌, list_eq, nat_eq, arith, Bool-cases,
  inl, inr,
}
use oysterpack.Metrics.Types.{Metric}
use oysterpack.Metrics.Registry.Gather.{retain}

module _ {F : Type 0} where
  remove_at-middle :
      (done : List (Metric F)) (m : Metric F) (rest : List (Metric F))
      → remove_at (done ++ m ∷ rest) (length done) ≡ done ++ rest
  remove_at-middle [] m rest = refl
  remove_at-middle (d ∷ done) m rest = ap (◌∷◌ d) (remove_at-middle done m rest)

  get_elem?-end : (done : List (Metric F)) → get_elem? (done ++ []) (length done) ≡ none
  get_elem?-end [] = refl
  get_elem?-end (d ∷ done) = get_elem?-end done

  retain-step :
      (fuel : ℕ) (keep : Metric F → Bool) (done : List (Metric F)) (m : Metric F)
      (rest : List (Metric F))
      → retain (suc fuel) keep (done ++ m ∷ rest) (length done) ≡ (
          if keep m
          then retain fuel keep (done ++ m ∷ rest) (length done + 1)
          else retain fuel keep (done ++ rest) (length done))
  unfolding retain
  retain-step fuel keep done m rest =
      rw (get_elem?-middle done m rest, retain)
        (elim (Bool-cases (keep m)) [
          | inl e ↦ rw e refl
          | inr e ↦
              rw e (ap (λ ms. retain fuel keep ms (length done)) (remove_at-middle done m rest))
        ])

  -- The loop from any place on, with a round for each metric left.
  retain-filter_from :
      (fuel : ℕ) (keep : Metric F → Bool) (done rest : List (Metric F))
      → length rest ≤ fuel
      → retain fuel keep (done ++ rest) (length done) ≡ done ++ filter keep rest
  retain-filter_from zero keep done [] h = unfold retain in refl
  retain-filter_from zero keep done (m ∷ rest) h = elim h [ ]
  retain-filter_from (suc fuel) keep done [] h =
      unfold retain in rw (get_elem?-end done, retain) refl
  retain-filter_from (suc fuel) keep done (m ∷ rest) h =
      let next = retain-filter_from fuel keep (done ++ m ∷ []) rest (omega arith) in
      let e : length (done ++ m ∷ []) ≡ length done + 1 =
        omega (arith, length-append done (m ∷ [])) in
      rw (retain-step fuel keep done m rest) (elim (Bool-cases (keep m)) [
        | inl k ↦ rw k (
            rw (e, append_assoc done (m ∷ []) rest, append_assoc done (m ∷ []) (filter keep rest))
              at next)
        | inr k ↦ rw k (retain-filter_from fuel keep done rest (omega arith))
      ])

  -- The loop, with a round for each metric, is a filter.
  pub retain-filter :
      (keep : Metric F → Bool) (ms : List (Metric F))
      → retain (length ms) keep ms 0 ≡ filter keep ms
  retain-filter keep ms = retain-filter_from (length ms) keep [] ms (omega arith)

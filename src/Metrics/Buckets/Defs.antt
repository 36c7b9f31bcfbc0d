-- ===== src/Metrics/Buckets/Defs.antt =====
-- `check_buckets` with its inner functions `sort_dedupe`, `dedupe` and `sort`. `F` stands for `f64`,
-- `lt` for its `<`, which is also when `partial_cmp` answers `Some(Less)`; `sort` is
-- `sort_unstable_by` with the comparator of the source. A vector is a list.
use oysterpack.Prelude.{
  ℕ, zero, suc, ◌+◌, ◌-◌, Bool, true, false, Option, none, some, List, Result, ok, err, ltb,
  if◌then◌else◌, length, get_elem?, remove_at, is_empty,
}
use oysterpack.Metrics.Types.{Error, msg, no_buckets}

module _ {F : Type 0} (lt : F → F → Bool) where
  less : Option F → Option F → Bool
  less none b = false
  less (some a) none = false
  less (some a) (some b) = lt a b

  -- `buckets[i - 1].partial_cmp(&buckets[i])` is `Some(Ordering::Less)`.
  unfoldable pub less_at : List F → ℕ → Bool
  unfolding less
  less_at buckets i = less (get_elem? buckets (i - 1)) (get_elem? buckets i)

  -- The `while` loop of `dedupe`, which takes one round for each bucket at most.
  unfoldable pub dedupe_pass : ℕ → List F → ℕ → Bool → List F × Bool
  unfolding less_at
  dedupe_pass zero buckets i found_dups = (buckets, found_dups)
  dedupe_pass (suc fuel) buckets i found_dups = elim (ltb i (length buckets)) [
    | false ↦ (buckets, found_dups)
    | true ↦ elim (less_at buckets i) [
      | true ↦ dedupe_pass fuel buckets (i + 1) found_dups
      | false ↦ dedupe_pass fuel (remove_at buckets i) (i + 1) true
    ]
  ]

  -- `if found_dups { return dedupe(buckets) }`, else the buckets.
  abbrev pub again : (List F → List F) → List F × Bool → List F
  again dedupe (buckets, found_dups) = elim found_dups [ true ↦ dedupe buckets | false ↦ buckets ]

  -- `dedupe`, which calls itself as long as a pass removes a bucket.
  unfoldable pub dedupe_rounds : ℕ → List F → List F
  dedupe_rounds zero buckets = buckets
  dedupe_rounds (suc fuel) buckets = elim (ltb 1 (length buckets)) [
    | false ↦ buckets
    | true ↦ again (dedupe_rounds fuel) (dedupe_pass (length buckets) buckets 1 false)
  ]

  unfoldable pub dedupe : List F → List F
  unfolding dedupe_rounds
  dedupe buckets = dedupe_rounds (length buckets) buckets

  module _ (sort : List F → List F) where
    unfoldable pub sort_dedupe : List F → List F
    unfolding dedupe
    sort_dedupe buckets = dedupe (sort buckets)

    unfoldable pub check_buckets : List F → Result (List F) Error
    unfolding sort_dedupe
    check_buckets buckets =
        if is_empty buckets then err (msg no_buckets) else ok (sort_dedupe buckets)

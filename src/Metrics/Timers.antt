-- ===== src/Metrics/Timers.antt =====
-- The durations and the timer buckets of oysterpack-trust/src/metrics.rs. A `Duration` is its seconds
-- and its nanoseconds. `F` stands for `f64`, with its conversions and its arithmetic; the two bucket
-- functions of the crate prometheus are a parameter, and so is the order in which a set is iterated.
pub mod Durations
use oysterpack.Prelude.{
  ℕ, ◌+◌, ◌*◌, Bool, List, [], ◌∷◌, map, Result, ok, err, if◌then◌else◌, ◌==◌, nat_eq, Outcome,
  returns, panics,
}
use oysterpack.Metrics.Types.{Error, msg, no_durations, start_not_positive}

-- `std::time::Duration`: `as_secs`, `subsec_nanos` (below 10^9) and `as_nanos`.
pub record Duration : Type 0 where
  pub secs : ℕ
  pub nanos : ℕ

abbrev pub nanos_per_sec : ℕ
nanos_per_sec = 1_000_000_000

abbrev pub as_nanos : Duration → ℕ
as_nanos d = d.secs * nanos_per_sec + d.nanos

-- `f64` as the source uses it.
pub record Float : Type 1 where
  pub F : Type 0
  pub of_nat : ℕ → F
  pub add : F → F → F
  pub div : F → F → F

module _ (f : Float) where
  unfoldable pub nanos_as_secs_f64 : ℕ → f.F
  nanos_as_secs_f64 nanos = f.div (f.of_nat nanos) (f.of_nat nanos_per_sec)

  unfoldable pub duration_as_secs_f64 : Duration → f.F
  duration_as_secs_f64 d =
      f.add (f.of_nat d.secs) (f.div (f.of_nat (as_nanos d)) (f.of_nat nanos_per_sec))

  unfoldable pub exponential_timer_buckets :
      (f.F → f.F → ℕ → Result (List f.F) Error) → Duration → f.F → ℕ → Result (List f.F) Error
  unfolding duration_as_secs_f64
  exponential_timer_buckets exponential_buckets start factor count =
      exponential_buckets (duration_as_secs_f64 start) factor count

  unfoldable pub linear_timer_buckets :
      (f.F → f.F → ℕ → Result (List f.F) Error) → Duration → Duration → ℕ → Result (List f.F) Error
  unfolding duration_as_secs_f64
  linear_timer_buckets linear_buckets start width count =
      if as_nanos start == 0
      then err (msg start_not_positive)
      else linear_buckets (duration_as_secs_f64 start) (duration_as_secs_f64 width) count

  -- The end of `timer_buckets`, of the sorted durations, with `durations[0]`.
  of_sorted : List Duration → Outcome (Result (List f.F) Error)
  unfolding duration_as_secs_f64
  of_sorted [] = panics
  of_sorted (d ∷ ds) =
      if as_nanos d == 0
      then returns (err (msg start_not_positive))
      else returns (ok (map (λ d. duration_as_secs_f64 d) (d ∷ ds)))

  -- `distinct` collects into a `HashSet` and lists it; `sort` sorts.
  unfoldable pub timer_buckets :
      (List Duration → List Duration)
      → (List Duration → List Duration)
      → List Duration
      → Outcome (Result (List f.F) Error)
  unfolding of_sorted
  timer_buckets distinct sort durations = elim (distinct durations) [
    | [] ↦ returns (err (msg no_durations))
    | d ∷ ds ↦ of_sorted (sort (d ∷ ds))
  ]

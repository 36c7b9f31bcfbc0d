-- ===== src/Execution/Counters.antt =====
-- The totals over the registry's executors.
use oysterpack.Prelude.{ℕ, ◌+◌, ◌^◌, ◌<◌, ◌≡◌, refl, List, [], ◌∷◌, arith, Result, values, nat_eq}
use oysterpack.Execution.{
  ExecutorId, ThreadPoolBuilder, Executor, ExecutorRegistry, Counters, u64, sum_from,
  task_active_count, task_completed_count, task_spawned_count, total_active_count,
  total_completed_count, total_spawned_count,
}

module _ {Pool IoError : Type 0} (create : ThreadPoolBuilder → Result Pool IoError) where
  -- The sum, unbounded.
  abbrev sum : (Executor create → ℕ) → List (Executor create) → ℕ
  sum count [] = 0
  sum count (e ∷ es) = count e + sum count es

  -- The wrapping fold is the sum, wrapped once.
  sum_from-sum :
      (count : Executor create → ℕ) (first : ℕ) (es : List (Executor create))
      → first < 2 ^ 64
      → sum_from create count first es ≡ u64 (first + sum count es)
  unfolding sum_from
  sum_from-sum count first [] h = omega arith
  sum_from-sum count first (e ∷ es) h =
      omega (arith, sum_from-sum count (u64 (first + count e)) es (omega arith))

  module _ (counters : Counters)
      (bounded : (id : ExecutorId)
        → ((counters id).spawned < 2 ^ 64) × ((counters id).completed < 2 ^ 64)) where
    active_one :
        (e : Executor create)
        → u64 (task_active_count create counters e + task_completed_count create counters e)
          ≡ task_spawned_count create counters e
    unfolding task_active_count task_completed_count task_spawned_count
    active_one e = omega (arith, bounded e.id)

    active_sum :
        (es : List (Executor create))
        → u64 (
            sum (task_active_count create counters) es
            + sum (task_completed_count create counters) es)
          ≡ u64 (sum (task_spawned_count create counters) es)
    active_sum [] = refl
    active_sum (e ∷ es) = omega (arith, active_one e, active_sum es)

    -- Over all executors, active and completed tasks add up to the spawned ones modulo 2^64, also
    -- where the active count of an executor has wrapped.
    pub total_active-completed-spawned :
        (r : ExecutorRegistry create)
        → u64 (total_active_count create counters r + total_completed_count create counters r)
          ≡ total_spawned_count create counters r
    unfolding total_active_count total_completed_count total_spawned_count
    total_active-completed-spawned r =
        let g = r.global_executor in
        let es = values r.thread_pools in
        let active = task_active_count create counters in
        let completed = task_completed_count create counters in
        let spawned = task_spawned_count create counters in
        omega (
          arith,
          bounded g.id,
          sum_from-sum active (active g) es (omega arith),
          sum_from-sum completed (completed g) es (omega (arith, bounded g.id)),
          sum_from-sum spawned (spawned g) es (omega (arith, bounded g.id)),
          active_one g,
          active_sum es,
        )

-- ===== src/Execution/Tasks.antt =====
-- The counters of one executor while tasks are spawned and run, as interleaved steps: a caller of
-- `spawn_obj` first hands the task to the pool and then counts it, and the wrapped future counts a
-- panic and then the completion (oysterpack-trust/src/concurrent/execution.rs, `impl Spawn for
-- Executor`). A spawn that the pool refuses changes nothing.
use oysterpack.Prelude.{
  ℕ, zero, suc, sym, subst, ◌+◌, ◌-◌, ◌^◌, ◌≤◌, ◌<◌, ◌≡◌, refl, ◌⊎◌, arith, Result,
}
use oysterpack.Execution.{ThreadPoolBuilder, Executor, Counters, task_active_count}

-- The counters, and where the tasks and the callers of `spawn_obj` are.
pub record Tasks : Type 0 where
  pub spawned : ℕ
  pub completed : ℕ
  pub panicked : ℕ
  pub uncounted : ℕ  -- tasks in the pool whose `spawn_obj` has not counted them yet
  pub running : ℕ  -- tasks in the pool that have not ended
  pub unwinding : ℕ  -- tasks that have counted their panic, and not their completion

pub data Step (t : Tasks) : Tasks → Type 0 where
  accept : Step t (record t { uncounted = t.uncounted + 1; running = t.running + 1 })
  count :
      0 < t.uncounted → Step t (record t { uncounted = t.uncounted - 1; spawned = t.spawned + 1 })
  finish :
      0 < t.running → Step t (record t { running = t.running - 1; completed = t.completed + 1 })
  panic :
      0 < t.running
      → Step t (record t {
        running = t.running - 1;
        unwinding = t.unwinding + 1;
        panicked = t.panicked + 1;
      })
  complete :
      0 < t.unwinding
      → Step t (record t { unwinding = t.unwinding - 1; completed = t.completed + 1 })

abbrev pub start : Tasks
start = record {
  spawned = 0;
  completed = 0;
  panicked = 0;
  uncounted = 0;
  running = 0;
  unwinding = 0;
}

pub data Reach : Tasks → Type 0 where
  here : Reach start
  next : {t u : Tasks} → Reach t → Step t u → Reach u

-- Each task in the pool or ended was counted or is about to be; panics are tasks that end.
pub record IsBalanced (t : Tasks) : Type 0 where
  pub conserved : t.spawned + t.uncounted ≡ t.completed + t.running + t.unwinding
  pub panics_end : t.panicked ≤ t.completed + t.unwinding
  pub panics_counted : t.unwinding ≤ t.panicked

Step-IsBalanced : {t u : Tasks} → Step t u → IsBalanced t → IsBalanced u
Step-IsBalanced accept b = omega arith
Step-IsBalanced (count h) b = omega arith
Step-IsBalanced (finish h) b = omega arith
Step-IsBalanced (panic h) b = omega arith
Step-IsBalanced (complete h) b = omega arith

-- Over every interleaving of callers and tasks the books balance.
pub Reach-IsBalanced : {t : Tasks} → Reach t → IsBalanced t
Reach-IsBalanced here = omega arith
Reach-IsBalanced (next r s) = Step-IsBalanced s (Reach-IsBalanced r)

module _ {Pool IoError : Type 0} (create : ThreadPoolBuilder → Result Pool IoError) where
  -- In every reachable state with less than 2^63 tasks, and an executor with those counters: if no
  -- more callers have yet to count than tasks are active, the active count is the number of active
  -- tasks less those callers; if more have, it has wrapped round below 2^64.
  pub task_active_count-Reach :
      {t : Tasks} (e : Executor create) (counters : Counters)
      → Reach t
      → (counters e.id).spawned ≡ t.spawned
      → (counters e.id).completed ≡ t.completed
      → t.spawned + t.uncounted < 2 ^ 63
      → ((t.uncounted ≤ t.running + t.unwinding)
          × (task_active_count create counters e + t.uncounted ≡ t.running + t.unwinding))
        ⊎ ((t.running + t.unwinding < t.uncounted)
            × (task_active_count create counters e + t.uncounted
                ≡ 2 ^ 64 + t.running + t.unwinding))
  unfolding task_active_count
  task_active_count-Reach {t} e counters r s c small = ground (arith, Reach-IsBalanced r)

-- A state where n tasks have ended and none of their callers has counted them.
all_ended : ℕ → Tasks
all_ended n = record start { completed = n; uncounted = n }

all_ended-Reach : (n : ℕ) → Reach (all_ended n)
unfolding all_ended
all_ended-Reach zero = here
all_ended-Reach (suc n) =
    let before = all_ended-Reach n in
    subst Reach (ground arith) (next (next before accept) (finish (omega arith)))

module _ {Pool IoError : Type 0} (create : ThreadPoolBuilder → Result Pool IoError) where
  -- For each n from 1 to 2^63 - 1 a state is reachable in which no task is in the pool and the
  -- active count of the executor is 2^64 - n.
  pub task_active_count-wraps :
      (n : ℕ) (e : Executor create) (counters : Counters)
      → 0 < n
      → n < 2 ^ 63
      → (counters e.id).spawned ≡ 0
      → (counters e.id).completed ≡ n
      → (t : Tasks) × Reach t
        × (t.spawned ≡ (counters e.id).spawned)
        × (t.completed ≡ (counters e.id).completed)
        × (t.running ≡ 0)
        × (t.unwinding ≡ 0)
        × (task_active_count create counters e ≡ 2 ^ 64 - n)
  unfolding task_active_count all_ended
  task_active_count-wraps n e counters pos small s c =
      (all_ended n, all_ended-Reach n, sym s, sym c, refl, refl, ground arith)

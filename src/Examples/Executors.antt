-- ===== src/Examples/Executors.antt =====
-- Executors.
use oysterpack.Prelude.{
  ◌+◌, ◌-◌, ◌≤◌, ◌<◌, ◌^◌, ◌≡◌, ◌≢◌, refl, ◌⊎◌, List, [], ◌∷◌, none, some, Result, ok, err, arith,
}
use oysterpack.Execution.{
  ExecutorId, global_executor_id, ThreadPoolBuilder, ExecutorBuilder, new_builder, Executor,
  ExecutorRegistry, executor_already_registered, register, executor, Counters, u64,
  task_active_count, total_active_count, total_completed_count, total_spawned_count, set_pool_size,
}
use oysterpack.Execution.Lookup.{IsValid, Registers, register-lookup, run, run-executor}
use oysterpack.Execution.Counters.{total_active-completed-spawned}
use oysterpack.Execution.Tasks.{
  Tasks, Reach, start, here, next, accept, finish, task_active_count-Reach, task_active_count-wraps,
}

-- A pool is the prefix of its threads' names.
abbrev create : ThreadPoolBuilder → Result ExecutorId (Unit {0})
create b = ok b.name_prefix

abbrev global : Executor create
global = record { id = global_executor_id; threadpool = 0; stack_size = none }

abbrev registry : ExecutorRegistry create
registry = record { global_executor = global; thread_pools = [] }

abbrev pool : ThreadPoolBuilder
pool = record { name_prefix = 7; stack_size = none; pool_size = some 2 }

registry-IsValid : IsValid create registry
registry-IsValid = record { global_id = refl; not_filed = refl; own_id = λ id e h. cc }

register-lookup_example :
    IsValid create (register create 7 pool none registry).1
    × (executor create 7 registry ≢ none
        → (register create 7 pool none registry).0 ≡ err (executor_already_registered 7))
    × Registers create 7 registry (register create 7 pool none registry)
register-lookup_example = register-lookup create 7 pool none registry registry-IsValid

abbrev builders : List ExecutorBuilder
unfolding set_pool_size new_builder
builders = set_pool_size 2 (new_builder 7) ∷ new_builder 7 ∷ new_builder 8 ∷ []

global-found : executor create global_executor_id registry ≡ some global
unfolding executor
global-found = refl

run-executor_example :
    executor create global_executor_id (run create builders registry) ≡ some global
run-executor_example = run-executor create builders registry global_executor_id global global-found

-- Every executor has counted 2 tasks spawned and 5 completed.
abbrev counters : Counters
counters id = record { spawned = 2; completed = 5; panicked = 0; threads = 1 }

total_active-completed-spawned_example :
    u64
      (total_active_count create counters registry + total_completed_count create counters registry)
    ≡ total_spawned_count create counters registry
total_active-completed-spawned_example =
    total_active-completed-spawned create counters (λ id. (omega arith, omega arith)) registry

-- One task has ended before its caller has counted it.
abbrev ended : Tasks
ended = record start { completed = 1; uncounted = 1 }

ended-Reach : Reach ended
ended-Reach = next (next here accept) (finish (omega arith))

abbrev ahead : Counters
ahead id = record { spawned = 0; completed = 1; panicked = 0; threads = 1 }

task_active_count-Reach_example :
    ((ended.uncounted ≤ ended.running + ended.unwinding)
      × (task_active_count create ahead global + ended.uncounted ≡ ended.running + ended.unwinding))
    ⊎ ((ended.running + ended.unwinding < ended.uncounted)
        × (task_active_count create ahead global + ended.uncounted
            ≡ 2 ^ 64 + ended.running + ended.unwinding))
task_active_count-Reach_example =
    task_active_count-Reach create global ahead ended-Reach refl refl (omega arith)

task_active_count-wraps_example :
    (t : Tasks) × Reach t
    × (t.spawned ≡ (ahead global.id).spawned)
    × (t.completed ≡ (ahead global.id).completed)
    × (t.running ≡ 0)
    × (t.unwinding ≡ 0)
    × (task_active_count create ahead global ≡ 2 ^ 64 - 1)
task_active_count-wraps_example =
    task_active_count-wraps create 1 global ahead (omega arith) (omega arith) refl refl

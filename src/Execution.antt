-- ===== src/Execution.antt =====
-- oysterpack-trust/src/concurrent/execution.rs and execution/metrics.rs: executors, their builder,
-- their registry and their counters. The thread pools of the futures crate are a parameter: `create`
-- stands for `ThreadPoolBuilder::create`. The counters of an executor are those of its id, wherever
-- the handle is cloned to; the registry's lock is held for a whole call.
pub mod Lookup
pub mod Counters
pub mod Tasks
use oysterpack.Prelude.{
  ℕ, ◌+◌, ◌-◌, ◌%◌, ◌^◌, Bool, ◌||◌, List, [], ◌∷◌, map, Option, none, some, Result, ok, err, ◌>>=◌,
  map_err, if◌then◌else◌, ◌==◌, nat_eq, HashMap, get, insert, contains_key, keys, values,
}

-- `ExecutorId`, and the id of the global executor.
abbrev pub ExecutorId : Type 0
ExecutorId = ℕ

abbrev pub global_executor_id : ExecutorId
global_executor_id = 1871427164235073850597045237139528853

-- What the source sets on a `ThreadPoolBuilder`.
pub record ThreadPoolBuilder : Type 0 where
  pub name_prefix : ExecutorId
  pub stack_size : Option ℕ
  pub pool_size : Option ℕ

-- `ExecutorBuilder`; the sizes are `NonZeroUsize`.
pub record ExecutorBuilder : Type 0 where
  pub id : ExecutorId
  pub stack_size : Option ℕ
  pub pool_size : Option ℕ

unfoldable pub new_builder : ExecutorId → ExecutorBuilder
new_builder id = record { id = id; stack_size = none; pool_size = none }

unfoldable pub set_stack_size : ℕ → ExecutorBuilder → ExecutorBuilder
set_stack_size size b = record b { stack_size = some size }

unfoldable pub set_pool_size : ℕ → ExecutorBuilder → ExecutorBuilder
set_pool_size size b = record b { pool_size = some size }

-- `ExecutorBuilder::builder`; its two hooks keep the gauge of the executor's threads.
unfoldable pub builder : ExecutorBuilder → ThreadPoolBuilder
builder b = record { name_prefix = b.id; stack_size = b.stack_size; pool_size = b.pool_size }

-- The values of the four metrics under an executor's label.
pub record Counts : Type 0 where
  pub spawned : ℕ
  pub completed : ℕ
  pub panicked : ℕ
  pub threads : ℕ

-- The metrics of all executors, by label.
abbrev pub Counters : Type 0
Counters = ExecutorId → Counts

abbrev pub u64 : ℕ → ℕ
u64 n = n % 2 ^ 64

module _ {Pool IoError : Type 0} (create : ThreadPoolBuilder → Result Pool IoError) where
  pub record Executor : Type 0 where
    pub id : ExecutorId
    pub threadpool : Pool
    pub stack_size : Option ℕ

  pub data ExecutorRegistryError : Type 0 where
    thread_pool_create_failed : IoError → ExecutorRegistryError
    executor_already_registered : ExecutorId → ExecutorRegistryError

  -- `Executor::new`.
  unfoldable pub new :
      ExecutorId → ThreadPoolBuilder → Option ℕ → Result Executor ExecutorRegistryError
  new id builder stack_size = do
    threadpool ← map_err thread_pool_create_failed (create builder)
    ok (record { id = id; threadpool = threadpool; stack_size = stack_size })

  pub record ExecutorRegistry : Type 0 where
    pub global_executor : Executor
    pub thread_pools : HashMap ExecutorId Executor

  -- `ExecutorRegistry::register`.
  unfoldable pub register :
      ExecutorId
      → ThreadPoolBuilder
      → Option ℕ
      → ExecutorRegistry
      → Result Executor ExecutorRegistryError × ExecutorRegistry
  unfolding new
  register id builder stack_size r =
      if contains_key id r.thread_pools || id == global_executor_id
      then (err (executor_already_registered id), r)
      else elim (new id builder stack_size) [
        | err e ↦ (err e, r)
        | ok executor ↦ (ok executor, record r { thread_pools = insert id executor r.thread_pools })
      ]

  -- `ExecutorBuilder::register`.
  unfoldable pub register_builder :
      ExecutorBuilder → ExecutorRegistry → Result Executor ExecutorRegistryError × ExecutorRegistry
  unfolding register builder
  register_builder b r = register b.id (builder b) b.stack_size r

  -- `ExecutorRegistry::default`; `none` is the panic of `unwrap`.
  unfoldable pub default : Option ExecutorRegistry
  unfolding new builder new_builder
  default = elim (new global_executor_id (builder (new_builder global_executor_id)) none) [
    | ok executor ↦ some (record { global_executor = executor; thread_pools = [] })
    | err e ↦ none
  ]

  unfoldable pub executor_ids : ExecutorRegistry → List ExecutorId
  executor_ids r = keys r.thread_pools

  unfoldable pub executor : ExecutorId → ExecutorRegistry → Option Executor
  executor id r = elim (get id r.thread_pools) [
    | some e ↦ some e
    | none ↦ if id == global_executor_id then some r.global_executor else none
  ]

  -- `Executor::task_spawned_count` and its kin, of the counters' values at the time.
  unfoldable pub task_spawned_count : Counters → Executor → ℕ
  task_spawned_count counters e = (counters e.id).spawned

  unfoldable pub task_completed_count : Counters → Executor → ℕ
  task_completed_count counters e = (counters e.id).completed

  unfoldable pub task_panic_count : Counters → Executor → ℕ
  task_panic_count counters e = (counters e.id).panicked

  -- A subtraction of `u64`, which wraps where overflow is not checked.
  unfoldable pub task_active_count : Counters → Executor → ℕ
  unfolding task_spawned_count task_completed_count
  task_active_count counters e =
      u64 (task_spawned_count counters e + 2 ^ 64 - task_completed_count counters e)

  unfoldable pub thread_pool_size : Counters → Executor → ℕ
  thread_pool_size counters e = (counters e.id).threads

  -- The totals, where no task is spawned or ends during the call: each executor is read once, and
  -- here all of them at one time.
  -- `thread_pools.values().fold(first, |sum, executor| sum + count(executor))`
  unfoldable pub sum_from : (Executor → ℕ) → ℕ → List Executor → ℕ
  sum_from count sum [] = sum
  sum_from count sum (e ∷ es) = sum_from count (u64 (sum + count e)) es

  unfoldable pub total : (Executor → ℕ) → ExecutorRegistry → ℕ
  unfolding sum_from
  total count r = sum_from count (count r.global_executor) (values r.thread_pools)

  unfoldable pub total_spawned_count : Counters → ExecutorRegistry → ℕ
  unfolding total task_spawned_count
  total_spawned_count counters r = total (task_spawned_count counters) r

  unfoldable pub total_active_count : Counters → ExecutorRegistry → ℕ
  unfolding total task_active_count
  total_active_count counters r = total (task_active_count counters) r

  unfoldable pub total_completed_count : Counters → ExecutorRegistry → ℕ
  unfolding total task_completed_count
  total_completed_count counters r = total (task_completed_count counters) r

  unfoldable pub total_panic_count : Counters → ExecutorRegistry → ℕ
  unfolding total task_panic_count
  total_panic_count counters r = total (task_panic_count counters) r

  unfoldable pub executor_thread_pool_sizes : Counters → ExecutorRegistry → List (ExecutorId × ℕ)
  unfolding thread_pool_size
  executor_thread_pool_sizes counters r =
      map (λ (p : ExecutorId × Executor). (p.0, thread_pool_size counters p.1)) r.thread_pools

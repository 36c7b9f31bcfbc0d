-- ===== src/Execution/Lookup.antt =====
-- Which executors the registry knows.
use oysterpack.Prelude.{
  ℕ, subst, ◌≡◌, ◌≢◌, refl, ◌↔◌, contains_key-is_some, inl, inr, true, false, ◌||◌, List, [], ◌∷◌,
  Option, none, some, Result, ok, err, if◌then◌else◌, ◌==◌, nat_eq, get, insert, contains_key,
  get-insert, arith, Bool-cases, Result-cases,
}
use oysterpack.Execution.{
  ExecutorId, global_executor_id, ThreadPoolBuilder, Executor, ExecutorRegistry,
  ExecutorRegistryError, executor_already_registered, thread_pool_create_failed, new, register,
  executor, ExecutorBuilder, register_builder, builder,
}

module _ {Pool IoError : Type 0} (create : ThreadPoolBuilder → Result Pool IoError) where
  -- Each executor is filed under its own id, and the global id is the global executor's alone.
  pub record IsValid (r : ExecutorRegistry create) : Type 0 where
    pub global_id : r.global_executor.id ≡ global_executor_id
    pub not_filed : get global_executor_id r.thread_pools ≡ none
    pub own_id :
        (id : ExecutorId) (e : Executor create) → get id r.thread_pools ≡ some e → e.id ≡ id

  -- The three ways through `register`.
  pub register_cases {ℓ} :
      (id : ExecutorId) (b : ThreadPoolBuilder) (s : Option ℕ) (r : ExecutorRegistry create)
      (P : Result (Executor create) (ExecutorRegistryError create) × ExecutorRegistry create
        → Type ℓ)
      → ((contains_key id r.thread_pools || id == global_executor_id) ≡ true
          → P (err (executor_already_registered id), r))
      → ((e : IoError)
          → (contains_key id r.thread_pools || id == global_executor_id) ≡ false
          → create b ≡ err e
          → P (err (thread_pool_create_failed e), r))
      → ((pool : Pool)
          → (contains_key id r.thread_pools || id == global_executor_id) ≡ false
          → create b ≡ ok pool
          → let e : Executor create = record { id = id; threadpool = pool; stack_size = s } in
            P (ok e, record r { thread_pools = insert id e r.thread_pools }))
      → P (register create id b s r)
  unfolding register new
  register_cases id b s r P known failed fresh =
      elim (Bool-cases (contains_key id r.thread_pools || id == global_executor_id)) [
        | inl k ↦ rw (k, register) (known k)
        | inr k ↦
            rw (k, register)
              (elim (Result-cases (create b)) [
                | inl (pool, c) ↦ rw (c, new) (fresh pool k c)
                | inr (e, c) ↦ rw (c, new) (failed e k c)
              ])
      ]

  register-IsValid :
      (id : ExecutorId) (b : ThreadPoolBuilder) (s : Option ℕ) (r : ExecutorRegistry create)
      → IsValid r
      → IsValid (register create id b s r).1
  register-IsValid id b s r v =
      register_cases id b s r (λ x. IsValid x.1) (λ k. v) (λ e k c. v)
        (λ pool k c.
          let e : Executor create = record { id = id; threadpool = pool; stack_size = s } in
          record {
            global_id = v.global_id;
            not_filed = ground (arith, get-insert id global_executor_id e r.thread_pools);
            own_id = λ j f h. ground (arith, get-insert id j e r.thread_pools, v.own_id j f);
          })

  -- The guard of `register` finds out whether the registry has an executor of the id.
  known_iff :
      (id : ExecutorId) (r : ExecutorRegistry create)
      → ((contains_key id r.thread_pools || id == global_executor_id) ≡ true)
        ↔ (executor create id r ≢ none)
  unfolding executor
  known_iff id r = (
    λ k q. ground (arith, contains_key-is_some id r.thread_pools),
    λ n. elim (Bool-cases (contains_key id r.thread_pools || id == global_executor_id)) [
      | inl k ↦ k
      | inr k ↦ absurd (n (ground (arith, contains_key-is_some id r.thread_pools)))
    ],
  )

  -- What a call does: an error changes nothing, and an executor is new and is all that is new.
  abbrev pub Registers :
      ExecutorId
      → ExecutorRegistry create
      → Result (Executor create) (ExecutorRegistryError create) × ExecutorRegistry create
      → Type 0
  Registers id r (err x, r') = r' ≡ r
  Registers id r (ok e, r') =
      (executor create id r ≡ none)
      × (e.id ≡ id)
      × ((j : ExecutorId)
          → executor create j r' ≡ (if id == j then some e else executor create j r))

  register-Registers :
      (id : ExecutorId) (b : ThreadPoolBuilder) (s : Option ℕ) (r : ExecutorRegistry create)
      → Registers id r (register create id b s r)
  unfolding executor
  register-Registers id b s r =
      register_cases id b s r (Registers id r) (λ k. refl) (λ e k c. refl)
        (λ pool k c.
          let e : Executor create = record { id = id; threadpool = pool; stack_size = s } in
          (
            ground (arith, contains_key-is_some id r.thread_pools),
            refl,
            λ j. ground (arith, get-insert id j e r.thread_pools),
          ))

  -- `register` keeps the registry valid. An id that the registry knows, the global one among them,
  -- is refused; an error changes nothing; and an executor that is answered has the id, was not
  -- known, and is found under the id from then on, while every other lookup is as it was.
  pub register-lookup :
      (id : ExecutorId) (b : ThreadPoolBuilder) (s : Option ℕ) (r : ExecutorRegistry create)
      → IsValid r
      → IsValid (register create id b s r).1
        × (executor create id r ≢ none
            → (register create id b s r).0 ≡ err (executor_already_registered id))
        × Registers id r (register create id b s r)
  register-lookup id b s r v = (
    register-IsValid id b s r v,
    (λ n.
        register_cases id b s r (λ x. x.0 ≡ err (executor_already_registered id)) (λ k. refl)
          (λ e k c. absurd (cc ((known_iff id r).1 n)))
          (λ pool k c. absurd (cc ((known_iff id r).1 n)))),
    register-Registers id b s r,
  )

  -- A history of calls of `ExecutorBuilder::register`.
  abbrev pub run : List ExecutorBuilder → ExecutorRegistry create → ExecutorRegistry create
  run [] r = r
  run (b ∷ bs) r = run bs (register_builder create b r).1

  keeps_of :
      (id : ExecutorId) (r : ExecutorRegistry create) (j : ExecutorId) (e : Executor create)
      (x : Result (Executor create) (ExecutorRegistryError create) × ExecutorRegistry create)
      → Registers id r x
      → executor create j r ≡ some e
      → executor create j x.1 ≡ some e
  keeps_of id r j e (err y, r') h k = rw h k
  keeps_of id r j e (ok f, r') h k = rw (h.2 j) (elim (Bool-cases (id == j)) [
    | inl q ↦
        let same : id ≡ j = ground arith in
        let new : executor create j r ≡ none = subst (λ i. executor create i r ≡ none) same h.0 in
        absurd (cc)
    | inr q ↦ rw q k
  ])

  register-keeps :
      (id : ExecutorId) (b : ThreadPoolBuilder) (s : Option ℕ) (r : ExecutorRegistry create)
      (j : ExecutorId) (e : Executor create)
      → executor create j r ≡ some e
      → executor create j (register create id b s r).1 ≡ some e
  register-keeps id b s r j e h =
      keeps_of id r j e (register create id b s r) (register-Registers id b s r) h

  -- Once registered, an executor stays registered, and is the same, through every history.
  pub run-executor :
      (bs : List ExecutorBuilder) (r : ExecutorRegistry create) (id : ExecutorId)
      (e : Executor create)
      → executor create id r ≡ some e
      → executor create id (run bs r) ≡ some e
  run-executor [] r id e h = h
  run-executor (b ∷ bs) r id e h =
      run-executor bs (register_builder create b r).1 id e
        (unfold register_builder in register-keeps b.id (builder b) b.stack_size r id e h)

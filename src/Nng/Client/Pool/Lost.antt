-- ===== src/Nng/Client/Pool/Lost.antt =====
-- When a request waits forever.
use oysterpack.Prelude.{
  some-injective, ℕ, ◌+◌, ◌<◌, ◌≡◌, refl, sym, ap, ◌∙◌, subst, ◌↔◌, inl, inr, Bool, true, false,
  none, some, List, [], ◌∷◌, ◌++◌, arith, Result, ltb, if◌then◌else◌, Bool-cases, ◌==◌, nat_eq,
  list_eq, nat_beq_iff,
}
use oysterpack.Nng.Context.{Context}
use oysterpack.Nng.Client.Worker.{RequestError, Round, replies, breaks, unwinds, handle_request}
use oysterpack.Nng.Client.Pool.{
  Client, set_at, finish, lend, process, process-serving, process-closed,
}

abbrev pub occurrences : ℕ → List ℕ → ℕ
occurrences j [] = 0
occurrences j (i ∷ is) = (if i == j then 1 else 0) + occurrences j is

occurrences-append :
    (j : ℕ) (is ks : List ℕ) → occurrences j (is ++ ks) ≡ occurrences j is + occurrences j ks
occurrences-append j [] ks = omega arith
occurrences-append j (i ∷ is) ks = omega (arith, occurrences-append j is ks)

module _ {Msg : Type 0} (ctx : Context Msg) (wait : ctx.State → Bool × ctx.State) where
  -- The clients that come of a new one, whose pool has n workers, all in their loops.
  pub data Reach (n : ℕ) : Client ctx wait → Type 0 where
    created :
        (c : Client ctx wait)
        → ((j : ℕ) → occurrences j c.pool ≡ (if ltb j n then 1 else 0))
        → ((j : ℕ) → c.alive j ≡ ltb j n)
        → c.serving ≡ true
        → Reach n c
    processed :
        {c c' : Client ctx wait} (m : Msg) (r : Result Msg RequestError)
        → Reach n c
        → process ctx wait m c ≡ some (r, c')
        → Reach n c'

  -- Each worker in its loop is in the pool, once, and no other; there are n at most.
  pub record IsBalanced (n : ℕ) (c : Client ctx wait) : Type 0 where
    pub in_pool : (j : ℕ) → occurrences j c.pool ≡ (if c.alive j then 1 else 0)
    pub below : (j : ℕ) → c.alive j ≡ true → j < n

  -- A worker that has left its loop is not lent again.
  left_loop :
      (n i : ℕ) (rest : List ℕ) (c : Client ctx wait) (s : ctx.State)
      → c.pool ≡ i ∷ rest
      → IsBalanced n c
      → IsBalanced n (record c {
        pool = rest;
        alive = set_at ctx wait i false c.alive;
        context = set_at ctx wait i s c.context;
      })
  unfolding set_at
  left_loop n i rest c s e b = record {
    in_pool = λ j.
        let h : occurrences j (i ∷ rest) ≡ (if c.alive j then 1 else 0) =
          subst (λ p. occurrences j p ≡ (if c.alive j then 1 else 0)) e (b.in_pool j) in
        ground (arith, h, nat_beq_iff i j);
    below = λ j h. ground (arith, b.below j);
  }

  finish-IsBalanced :
      (n i : ℕ) (rest : List ℕ) (c : Client ctx wait) (r : Round Msg ctx.State)
      → c.pool ≡ i ∷ rest
      → IsBalanced n c
      → IsBalanced n (finish ctx wait i rest c r).1
  unfolding finish set_at
  finish-IsBalanced n i rest c (replies r s) e b = record {
    in_pool = λ j.
        let h : occurrences j (i ∷ rest) ≡ (if c.alive j then 1 else 0) =
          subst (λ p. occurrences j p ≡ (if c.alive j then 1 else 0)) e (b.in_pool j) in
        omega (arith, h, occurrences-append j rest (i ∷ []));
    below = b.below;
  }
  finish-IsBalanced n i rest c (breaks s) e b = left_loop n i rest c s e b
  finish-IsBalanced n i rest c (unwinds s) e b = left_loop n i rest c s e b

  lend-IsBalanced :
      (n : ℕ) (m : Msg) (c c' : Client ctx wait) (r : Result Msg RequestError) (pool : List ℕ)
      → c.pool ≡ pool
      → IsBalanced n c
      → lend ctx wait m c pool ≡ some (r, c')
      → IsBalanced n c'
  unfolding lend
  lend-IsBalanced n m c c' r [] e b h = absurd (ground (arith))
  lend-IsBalanced n m c c' r (i ∷ rest) e b h = elim (Bool-cases (c.alive i)) [
    | inl k ↦
        let round = handle_request ctx wait (record { msg = some m }) (c.context i) in
        let g : some (finish ctx wait i rest c round) ≡ some (r, c') = rw k at h in
        subst (λ x. IsBalanced n x.1) (some-injective g) (finish-IsBalanced n i rest c round e b)
    | inr k ↦
        let q : occurrences i (i ∷ rest) ≡ (if c.alive i then 1 else 0) =
          subst (λ p. occurrences i p ≡ (if c.alive i then 1 else 0)) e (b.in_pool i) in
        absurd (ground (arith, q, nat_beq_iff i i))
  ]

  Reach-IsBalanced : (n : ℕ) {c : Client ctx wait} → Reach n c → IsBalanced n c
  Reach-IsBalanced n (created c p a s) = record {
    in_pool = λ j. p j ∙ ap (λ b. if b then 1 else 0) (sym (a j));
    below = λ j h. ground (arith, a j);
  }
  Reach-IsBalanced n (processed {c} {c'} m r k h) = elim (Bool-cases c.serving) [
    | inl s ↦
        lend-IsBalanced n m c c' r c.pool refl (Reach-IsBalanced n k)
          (sym (process-serving ctx wait m c s) ∙ h)
    | inr s ↦
        subst (λ x. IsBalanced n x.1) (some-injective (sym (process-closed ctx wait m c s) ∙ h))
          (Reach-IsBalanced n k)
  ]

  empty_pool : (pool : List ℕ) → ((j : ℕ) → occurrences j pool ≡ 0) → pool ≡ []
  empty_pool [] h = refl
  empty_pool (i ∷ rest) h = absurd (ground (arith, h i, nat_beq_iff i i))

  lend-none :
      (m : Msg) (c : Client ctx wait) (pool : List ℕ)
      → (lend ctx wait m c pool ≡ none) ↔ (pool ≡ [])
  unfolding lend
  lend-none m c [] = (λ h. refl, λ h. refl)
  lend-none m c (i ∷ rest) = (λ h. absurd (ground arith), λ h. absurd (ground arith))

  -- Of a client that comes of a new one with n workers, whatever nng did in its requests: the next
  -- request waits forever exactly when the pool is served and no worker is in its loop any more.
  pub process-none_iff :
      (n : ℕ) (m : Msg) {c : Client ctx wait}
      → Reach n c
      → (process ctx wait m c ≡ none) ↔ ((c.serving ≡ true) × ((j : ℕ) → c.alive j ≡ false))
  process-none_iff n m {c} k =
      let b = Reach-IsBalanced n k in
      (
        λ h. elim (Bool-cases c.serving) [
          | inl s ↦
              let e : c.pool ≡ [] =
                (lend-none m c c.pool).0 (sym (process-serving ctx wait m c s) ∙ h) in
              (
                s,
                λ j.
                    let q : 0 ≡ (if c.alive j then 1 else 0) =
                      ap (occurrences j) (sym e) ∙ b.in_pool j in
                    ground (arith, q),
              )
          | inr s ↦ absurd (ground (arith, sym (process-closed ctx wait m c s) ∙ h))
        ],
        λ (s, dead).
            let e = empty_pool c.pool (λ j. b.in_pool j ∙ ap (λ t. if t then 1 else 0) (dead j)) in
            process-serving ctx wait m c s ∙ (lend-none m c c.pool).1 e,
      )

-- ===== src/Nng/Client/Pool/Turns.antt =====
-- Over nng contexts that report each operation, the workers take turns and no request is lost.
use oysterpack.Prelude.{
  ℕ, zero, suc, ◌≡◌, Bool, true, List, [], ◌∷◌, ◌++◌, Result, All, nat_eq, list_eq,
}
use oysterpack.Nng.Context.{Context}
use oysterpack.Nng.Client.Worker.{RequestError}
use oysterpack.Nng.Client.Worker.Reported.{IsAnswer, Reports, Exchanges}
use oysterpack.Nng.Client.Pool.{Client}

-- The first goes to the end, n times.
abbrev pub rotate : ℕ → List ℕ → List ℕ
rotate zero l = l
rotate (suc n) [] = []
rotate (suc n) (x ∷ l) = rotate n (l ++ x ∷ [])

module _ {Msg : Type 0} (ctx : Context Msg) (wait : ctx.State → Bool × ctx.State)
    (reports : Reports ctx wait) (exchanges : Exchanges ctx wait) where
  -- A result for each request, its answer.
  abbrev pub Answered : List Msg → List (Result Msg RequestError) → Type 0
  Answered [] [] = Unit
  Answered [] (r ∷ rs) = ⊥
  Answered (m ∷ ms) [] = ⊥
  Answered (m ∷ ms) (r ∷ rs) = IsAnswer ctx wait exchanges m r × Answered ms rs

  -- All the workers in the pool are in their loops.
  abbrev pub IsServed : Client ctx wait → Type 0
  IsServed c = (c.serving ≡ true) × All (λ i. c.alive i ≡ true) c.pool

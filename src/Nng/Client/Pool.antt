-- ===== src/Nng/Client/Pool.antt =====
-- The pool of an `NngClient` and its `process` (oysterpack-trust-nng/src/reqrep/client.rs). The
-- ReqRep service awaits the reply of a request before it takes the next, so one request is in
-- progress at a time; the worker of the one before has its place in the pool again by then, unless
-- it has left its loop.
use oysterpack.Prelude.{
  ℕ, zero, suc, ◌+◌, ◌-◌, ◌*◌, ◌/◌, ◌%◌, ◌^◌, ◌≤◌, ◌<◌, ◌≡◌, refl, sym, ap, ◌∙◌, subst, ◌≢◌, ◌↔◌,
  ◌⊎◌, inl, inr, Bool, true, false, not, ◌&&◌, ◌||◌, Option, none, some, List, [], ◌∷◌, ◌++◌, map,
  arith, Result, ok, err, ◌>>=◌, ◌>>◌, map_err, is_ok, >>=-eq-ok, ok-injective, Result-cases,
  Outcome, returns, panics, ltb, leb, if◌then◌else◌, Bool-cases, Option-cases, length, is_empty,
  filter, any, all, All, In, first, flat_map, filter_map, All-map, All-In, All-of_In, List-cases,
  length-append, ◌==◌, Eq, nat_eq, list_eq, nat_beq_iff, list_beq_iff, contains, HashMap, get,
  insert, remove, contains_key, keys, values, get-insert, get-remove, contains_key-get,
  contains_key-is_some, contains_key-of_get, is_some,
}
use oysterpack.Nng.Types.{NngError}
use oysterpack.Nng.Context.{Context}
use oysterpack.Nng.Client.Worker.{
  RequestError, aio_context_pool_channel_disconnected, aio_context_channel_disconnected,
  reply_channel_closed, Request, Round, replies, breaks, unwinds, handle_request,
}
pub mod Turns
pub mod Lost

module _ {Msg : Type 0} (ctx : Context Msg) (wait : ctx.State → Bool × ctx.State) where
  -- The workers whose senders are in the pool, in order; whether each is in its loop, and its
  -- context; and whether the task of the pool is.
  pub record Client : Type 0 where
    pub pool : List ℕ
    pub alive : ℕ → Bool
    pub context : ℕ → ctx.State
    pub serving : Bool

  unfoldable pub set_at {ℓ} : {A : Type ℓ} → ℕ → A → (ℕ → A) → ℕ → A
  set_at i a f j = if i == j then a else f j

  -- What the request in progress gets of its worker, which is the next one if it goes on.
  unfoldable pub finish :
      ℕ → List ℕ → Client → Round Msg ctx.State → Result Msg RequestError × Client
  unfolding set_at
  finish i rest c (replies r s) =
      (r, record c { pool = rest ++ i ∷ []; context = set_at i s c.context })
  finish i rest c (breaks s) = (
    err reply_channel_closed,
    record c { pool = rest; alive = set_at i false c.alive; context = set_at i s c.context },
  )
  finish i rest c (unwinds s) = (
    err reply_channel_closed,
    record c { pool = rest; alive = set_at i false c.alive; context = set_at i s c.context },
  )

  -- What the task of the pool lends: the first sender, as soon as there is one.
  unfoldable pub lend : Msg → Client → List ℕ → Option (Result Msg RequestError × Client)
  unfolding finish
  lend req c [] = none
  lend req c (i ∷ rest) = some (
      if c.alive i
      then finish i rest c (handle_request ctx wait (record { msg = some req }) (c.context i))
      else (err aio_context_channel_disconnected, record c { pool = rest }))

  -- `NngClient::process`: `none` if the reply never comes, since the pool stays empty.
  unfoldable pub process : Msg → Client → Option (Result Msg RequestError × Client)
  unfolding lend
  process req c =
      if c.serving then lend req c c.pool else some (err aio_context_pool_channel_disconnected, c)

  abbrev pub first_answer :
      Result Msg RequestError
      → Option (List (Result Msg RequestError) × Client)
      → Option (List (Result Msg RequestError) × Client)
  first_answer r none = none
  first_answer r (some (rs, c)) = some (r ∷ rs, c)

  abbrev pub then_process :
      (Client → Option (List (Result Msg RequestError) × Client))
      → Option (Result Msg RequestError × Client)
      → Option (List (Result Msg RequestError) × Client)
  then_process rest none = none
  then_process rest (some (r, c)) = first_answer r (rest c)

  -- The requests that the service takes one by one.
  abbrev pub process_all : List Msg → Client → Option (List (Result Msg RequestError) × Client)
  process_all [] c = some ([], c)
  process_all (m ∷ ms) c = then_process (process_all ms) (process m c)

  pub process-serving : (m : Msg) (c : Client) → c.serving ≡ true → process m c ≡ lend m c c.pool
  unfolding process
  process-serving m c s =
      ap (λ b. if b then lend m c c.pool else some (err aio_context_pool_channel_disconnected, c)) s

  pub process-closed :
      (m : Msg) (c : Client)
      → c.serving ≡ false
      → process m c ≡ some (err aio_context_pool_channel_disconnected, c)
  unfolding process
  process-closed m c s =
      ap (λ b. if b then lend m c c.pool else some (err aio_context_pool_channel_disconnected, c)) s

-- ===== src/Rpc/Client/Tickets.antt =====
-- Where the tickets of an `AsyncClient` are.
use oysterpack.Prelude.{
  ℕ, ◌+◌, ◌-◌, ◌≡◌, refl, subst, inl, inr, Bool, true, false, Option, none, some, List, [], ◌∷◌,
  ◌++◌, arith, Result, ok, err, Outcome, returns, panics, if◌then◌else◌, Bool-cases, ◌==◌, nat_eq,
  list_eq, nat_beq_iff,
}
use oysterpack.Nng.Types.{NngError}
use oysterpack.Rpc.Client.{
  AioState, receiving, sending, idle, ClientError, aio_context_at_max_capacity,
  aio_context_create_error, aio_create_error, aio_send_error, aio_receive_error,
  aio_context_channel_closed, AsyncClient, Call, build, send_message, Answers, start_send, submit,
  register, close, Report, Called, receive, reply, succeeded, finished, callback, max_capacity,
  available_capacity, used_capacity,
}

-- The requests whose callback nng will still run.
abbrev pub in_flight : List Call → ℕ
in_flight [] = 0
in_flight (call ∷ calls) = (if call.in_progress then 1 else 0) + in_flight calls

in_flight-append : (l r : List Call) → in_flight (l ++ r) ≡ in_flight l + in_flight r
in_flight-append [] r = omega arith
in_flight-append (call ∷ l) r = omega (arith, in_flight-append l r)

-- A refused request has taken no ticket; one that failed for another reason has.
abbrev pub lost_by : ClientError → ℕ
lost_by (aio_context_at_max_capacity n) = 0
lost_by (aio_context_create_error e) = 1
lost_by (aio_create_error e) = 1
lost_by (aio_send_error e) = 1
lost_by (aio_receive_error e) = 1
lost_by aio_context_channel_closed = 1

-- The clients that come of a new one with its requests, in any order of their steps, and how many
-- requests have failed with a ticket. nng runs a callback once for each operation that is started.
pub data Reach (Msg : Type 0) : ℕ → AsyncClient → List Call → Type 0 where
  built : (capacity : Option ℕ) → Reach Msg 0 (build capacity) []
  submitted :
      {lost : ℕ} {c c' : AsyncClient} {calls : List Call} (key : ℕ) (answers : Answers)
      (call : Call)
      → Reach Msg lost c calls
      → submit key answers c ≡ (ok call, c')
      → Reach Msg lost c' (call ∷ calls)
  failed :
      {lost : ℕ} {c c' : AsyncClient} {calls : List Call} (key : ℕ) (answers : Answers)
      (e : ClientError)
      → Reach Msg lost c calls
      → submit key answers c ≡ (err e, c')
      → Reach Msg (lost + lost_by e) c' calls
  registered :
      {lost : ℕ} {c : AsyncClient} {calls : List Call} (key : ℕ)
      → Reach Msg lost c calls
      → Reach Msg lost (register key c).1 calls
  called_back :
      {lost : ℕ} {c c' : AsyncClient} (call call' : Call) (before after : List Call)
      (aio : Report Msg) (replied : Option (Result Msg ClientError))
      → Reach Msg lost c (before ++ call ∷ after)
      → call.in_progress ≡ true
      → callback c call aio ≡ returns (c', call', replied)
      → Reach Msg lost c' (before ++ call' ∷ after)

-- Each ticket is in the channel, with a request in flight, or lost.
abbrev Conserves : ℕ → AsyncClient → ℕ → Type 0
Conserves lost c n = c.tickets + n + lost ≡ c.capacity

build-Conserves : (n : Option ℕ) → Conserves 0 (build n) 0
unfolding build
build-Conserves none = refl
build-Conserves (some n) = omega arith

-- An operation is in progress only in the states that stand for one.
abbrev busy : AioState → Bool
busy receiving = true
busy sending = true
busy idle = false

abbrev IsBusy : Call → Type 0
IsBusy call = (if call.in_progress then busy call.aio_state else true) ≡ true

abbrev Busy : List Call → Type 0
Busy [] = Unit
Busy (call ∷ calls) = IsBusy call × Busy calls

Busy-at : (before after : List Call) (call : Call) → Busy (before ++ call ∷ after) → IsBusy call
Busy-at [] after call (b, _) = b
Busy-at (x ∷ before) after call (_, bs) = Busy-at before after call bs

Busy-set :
    (before after : List Call) (call call' : Call)
    → IsBusy call'
    → Busy (before ++ call ∷ after)
    → Busy (before ++ call' ∷ after)
Busy-set [] after call call' b (_, bs) = (b, bs)
Busy-set (x ∷ before) after call call' b (y, bs) = (y, Busy-set before after call call' b bs)

-- What is given to nng is in flight; what fails after the ticket was taken loses it.
abbrev Started : Result Call ClientError → Type 0
Started (ok call) = (call.in_progress ≡ true) × IsBusy call
Started (err e) = lost_by e ≡ 1

start_send-Started :
    (key : ℕ) (context aio send : Result (Unit {0}) NngError)
    → Started (start_send key (record { context = context; aio = aio; send = send }))
unfolding start_send
start_send-Started key (ok _) (ok _) (ok _) = (refl, refl)
start_send-Started key (ok _) (ok _) (err e) = refl
start_send-Started key (ok _) (err e) s = refl
start_send-Started key (err e) a s = refl

abbrev Accounts : (lost n : ℕ) → Result Call ClientError × AsyncClient → Type 0
Accounts lost n (ok call, c) =
    Conserves lost c ((if call.in_progress then 1 else 0) + n) × IsBusy call
Accounts lost n (err e, c) = Conserves (lost + lost_by e) c n

Started-Accounts :
    (r : Result Call ClientError) (c : AsyncClient) (lost n : ℕ)
    → Started r
    → Conserves lost c (1 + n)
    → Accounts lost n (r, c)
Started-Accounts (ok call) c lost n (s, b) h = (ground (arith, s, h), b)
Started-Accounts (err e) c lost n s h = omega (arith, s, h)

submit-Accounts :
    (key : ℕ) (answers : Answers) (c : AsyncClient) (lost n : ℕ)
    → Conserves lost c n
    → Accounts lost n (submit key answers c)
unfolding submit
submit-Accounts key answers c lost n h = elim (Bool-cases (c.tickets == 0)) [
  | inl k ↦ rw k (omega (arith, h))
  | inr k ↦ rw k (
      Started-Accounts (start_send key answers) (record c { tickets = c.tickets - 1 }) lost n
        (start_send-Started key answers.context answers.aio answers.send)
        (ground (arith, k, h, nat_beq_iff c.tickets 0)))
]

register-tickets :
    (key : ℕ) (c : AsyncClient)
    → ((register key c).1.tickets ≡ c.tickets) × ((register key c).1.capacity ≡ c.capacity)
unfolding register send_message
register-tickets key c = elim (Bool-cases c.listening) [
  | inl k ↦ rw k (refl, refl)
  | inr k ↦ rw k (refl, refl)
]

close-Conserves :
    (key : ℕ) (c : AsyncClient) (lost n : ℕ)
    → Conserves lost c (1 + n)
    → Conserves lost (close key c) n
unfolding close send_message
close-Conserves key c lost n h = elim (Bool-cases c.listening) [
  | inl k ↦ ground (arith, k, h)
  | inr k ↦ ground (arith, k, h)
]

abbrev Settles : {Msg : Type 0} → (lost n : ℕ) → Outcome (Called Msg) → Type 0
Settles lost n panics = Unit
Settles lost n (returns (c, call, replied)) =
    Conserves lost c ((if call.in_progress then 1 else 0) + n) × IsBusy call

module _ (c : AsyncClient) (call : Call) (lost n : ℕ) (h : Conserves lost c (1 + n)) where
  receive-Settles :
      (Msg : Type 0) (r : Result (Unit {0}) NngError)
      → Settles {Msg = Msg} lost n (receive c call r)
  unfolding receive
  receive-Settles Msg (ok _) = (h, refl)
  receive-Settles Msg (err e) = tt

  reply-Settles : {Msg : Type 0} (m : Option Msg) → Settles lost n (reply c call m)
  unfolding reply
  reply-Settles none = tt
  reply-Settles (some m) = (omega (arith, close-Conserves call.context_key c lost n h), refl)

  succeeded-Settles :
      {Msg : Type 0} (state : AioState) (aio : Report Msg)
      → busy state ≡ true
      → Settles lost n (succeeded c call state aio)
  unfolding succeeded
  succeeded-Settles receiving aio b = reply-Settles aio.msg
  succeeded-Settles sending aio b = receive-Settles _ aio.recv
  succeeded-Settles idle aio b = absurd (ground (arith, b))

  finished-Settles :
      {Msg : Type 0} (r : Result (Unit {0}) NngError) (aio : Report Msg)
      → busy call.aio_state ≡ true
      → Settles lost n (finished c call r aio)
  unfolding finished
  finished-Settles (ok _) aio b = succeeded-Settles call.aio_state aio b
  finished-Settles (err e) aio b =
      (omega (arith, close-Conserves call.context_key c lost n h), refl)

Reach-Conserves :
    {Msg : Type 0} {lost : ℕ} {c : AsyncClient} {calls : List Call}
    → Reach Msg lost c calls
    → Conserves lost c (in_flight calls) × Busy calls
unfolding callback
Reach-Conserves (built n) = (build-Conserves n, tt)
Reach-Conserves (submitted {lost} {c} {c'} {calls} key answers call r e) =
    let (h, bs) = Reach-Conserves r in
    let (h', b) =
      subst (Accounts lost (in_flight calls)) e
        (submit-Accounts key answers c lost (in_flight calls) h) in
    (h', (b, bs))
Reach-Conserves (failed {lost} {c} {c'} {calls} key answers x r e) =
    let (h, bs) = Reach-Conserves r in
    (
      subst (Accounts lost (in_flight calls)) e
          (submit-Accounts key answers c lost (in_flight calls) h),
      bs,
    )
Reach-Conserves (registered {lost} {c} {calls} key r) =
    let (h, bs) = Reach-Conserves r in (omega (arith, h, register-tickets key c), bs)
Reach-Conserves (called_back {lost} {c} {c'} call call' before after aio replied r p e) =
    let (h, bs) = Reach-Conserves r in
    let n = in_flight before + in_flight after in
    let (h', b) = subst (Settles lost n) e (
      finished-Settles c call lost n (ground (arith, h, p, in_flight-append before (call ∷ after)))
        aio.result aio (ground (arith, p, Busy-at before after call bs))) in
    (
      omega (arith, h', in_flight-append before (call' ∷ after)),
      Busy-set before after call call' b bs,
    )

-- For a client with its requests, whatever nng answers and however the steps interleave, as long as
-- nng runs a callback once for each operation that is started: each ticket is in the channel, with
-- one request whose callback is still to run, or lost with a request that failed after it took the
-- ticket. So the capacity in use is the number of the two latter.
pub used_capacity-Reach :
    {Msg : Type 0} {lost : ℕ} {c : AsyncClient} {calls : List Call}
    → Reach Msg lost c calls
    → (available_capacity c + in_flight calls + lost ≡ max_capacity c)
      × (used_capacity c ≡ in_flight calls + lost)
unfolding used_capacity max_capacity available_capacity
used_capacity-Reach r = let e = (Reach-Conserves r).0 in (e, omega (arith, e))

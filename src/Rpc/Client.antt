-- ===== src/Rpc/Client.antt =====
-- `AsyncClient` of oysterpack-message/src/op_nng/rpc/client/asyncio.rs: requests with a callback, each
-- with a context of its own, limited by tickets. Left out: a `ReplyHandler` that panics, and the
-- background thread, but for its channel.
use oysterpack.Prelude.{
  map_err-ok, some-injective, ℕ, zero, suc, ◌+◌, ◌-◌, ◌*◌, ◌/◌, ◌%◌, ◌^◌, ◌≤◌, ◌<◌, ◌≡◌, refl, sym,
  ap, ◌∙◌, subst, ◌≢◌, ◌↔◌, ◌⊎◌, inl, inr, Bool, true, false, not, ◌&&◌, ◌||◌, Option, none, some,
  List, [], ◌∷◌, ◌++◌, map, arith, Result, ok, err, ◌>>=◌, ◌>>◌, map_err, is_ok, >>=-eq-ok,
  ok-injective, Result-cases, Outcome, returns, panics, ltb, leb, if◌then◌else◌, Bool-cases,
  Option-cases, length, is_empty, filter, any, all, All, In, first, flat_map, filter_map, All-map,
  All-In, All-of_In, List-cases, length-append, ◌==◌, Eq, nat_eq, list_eq, nat_beq_iff,
  list_beq_iff, contains, HashMap, get, insert, remove, contains_key, keys, values, get-insert,
  get-remove, contains_key-get, contains_key-is_some, contains_key-of_get, is_some,
}
use oysterpack.Nng.Types.{NngError}
pub mod Tickets

pub data AioState : Type 0 where
  receiving : AioState
  sending : AioState
  idle : AioState

-- What the thread that keeps the contexts is sent.
pub data AioContextMessage : Type 0 where
  insert_context : ℕ → AioContextMessage
  remove_context : ℕ → AioContextMessage
  count_contexts : AioContextMessage

pub data ClientError : Type 0 where
  aio_context_at_max_capacity : (max_capacity : ℕ) → ClientError
  aio_context_create_error : NngError → ClientError
  aio_create_error : NngError → ClientError
  aio_send_error : NngError → ClientError
  aio_receive_error : NngError → ClientError
  aio_context_channel_closed : ClientError

-- The capacity and the content of the ticket channel, whether the thread still receives, and what it
-- was sent and has not taken.
pub record AsyncClient : Type 0 where
  pub capacity : ℕ
  pub tickets : ℕ
  pub listening : Bool
  pub aio_context_registry_chan : List AioContextMessage

-- What the callback of a request shares with it: the key of its context and the state. `in_progress`
-- is nng's: an operation of the Aio is started and its end not reported.
pub record Call : Type 0 where
  pub context_key : ℕ
  pub aio_state : AioState
  pub in_progress : Bool

-- `Builder::build`, once the dialer is started.
unfoldable pub build : (max_concurrent_request_capacity : Option ℕ) → AsyncClient
build none = record { capacity = 1; tickets = 1; listening = true; aio_context_registry_chan = [] }
build (some n) = record {
  capacity = n;
  tickets = n;
  listening = true;
  aio_context_registry_chan = [];
}

unfoldable pub send_message : AioContextMessage → AsyncClient → AsyncClient
send_message m c = record c { aio_context_registry_chan = c.aio_context_registry_chan ++ (m ∷ []) }

-- What nng answers to `Context::new`, `Aio::with_callback` and `Context::send`.
pub record Answers : Type 0 where
  pub context : Result (Unit {0}) NngError
  pub aio : Result (Unit {0}) NngError
  pub send : Result (Unit {0}) NngError

-- The Aio of a request that has been given to nng.
unfoldable pub start_send : ℕ → Answers → Result Call ClientError
start_send key answers = do
  _ ← map_err aio_context_create_error answers.context
  _ ← map_err aio_create_error answers.aio
  _ ← map_err aio_send_error answers.send
  ok (record { context_key = key; aio_state = sending; in_progress = true })

-- `send_with_callback` up to `context.send`, from which on the callback may run.
unfoldable pub submit : ℕ → Answers → AsyncClient → Result Call ClientError × AsyncClient
unfolding start_send
submit key answers c =
    if c.tickets == 0
    then (err (aio_context_at_max_capacity c.capacity), c)
    else (start_send key answers, record c { tickets = c.tickets - 1 })

-- The rest of it.
unfoldable pub register : ℕ → AsyncClient → Result (Unit {0}) ClientError × AsyncClient
unfolding send_message
register key c =
    if c.listening
    then (ok tt, send_message (insert_context key) c)
    else (err aio_context_channel_closed, c)

-- The closure `close` of the callback: a `try_send` of a ticket, and a message to the thread.
unfoldable pub close : ℕ → AsyncClient → AsyncClient
unfolding send_message
close key c =
    let returned = record c {
      tickets = (if ltb c.tickets c.capacity then c.tickets + 1 else c.tickets);
    } in
    if returned.listening then send_message (remove_context key) returned else returned

-- What nng answers in a callback: the result of the operation, to a `Context::recv`, and the message.
pub record Report (Msg : Type 0) : Type 0 where
  pub result : Result (Unit {0}) NngError
  pub recv : Result (Unit {0}) NngError
  pub msg : Option Msg

-- The client, the call, and what the `ReplyHandler` is called with.
abbrev pub Called : Type 0 → Type 0
Called Msg = AsyncClient × Call × Option (Result Msg ClientError)

module _ {Msg : Type 0} where
  -- `callback_context.recv(&aio).unwrap()`.
  unfoldable receive : AsyncClient → Call → Result (Unit {0}) NngError → Outcome (Called Msg)
  receive c call (ok _) =
      returns (c, record call { aio_state = receiving; in_progress = true }, none)
  receive c call (err e) = panics

  -- `aio.get_msg().unwrap()`.
  unfoldable reply : AsyncClient → Call → Option Msg → Outcome (Called Msg)
  unfolding close
  reply c call none = panics
  reply c call (some rep) = returns (
    close call.context_key c,
    record call { aio_state = idle; in_progress = false },
    some (ok rep),
  )

  unfoldable succeeded : AsyncClient → Call → AioState → Report Msg → Outcome (Called Msg)
  unfolding receive reply
  succeeded c call sending aio = receive c call aio.recv
  succeeded c call receiving aio = reply c call aio.msg
  succeeded c call idle aio = returns (c, record call { in_progress = false }, none)

  unfoldable finished :
      AsyncClient → Call → Result (Unit {0}) NngError → Report Msg → Outcome (Called Msg)
  unfolding succeeded close
  finished c call (ok _) aio = succeeded c call call.aio_state aio
  finished c call (err e) aio = returns (
    close call.context_key c,
    record call { in_progress = false },
    some (err (aio_receive_error e)),
  )

  -- The callback of a request.
  unfoldable pub callback : AsyncClient → Call → Report Msg → Outcome (Called Msg)
  unfolding finished
  callback c call aio = finished c call aio.result aio

unfoldable pub max_capacity : AsyncClient → ℕ
max_capacity c = c.capacity

unfoldable pub available_capacity : AsyncClient → ℕ
available_capacity c = c.tickets

unfoldable pub used_capacity : AsyncClient → ℕ
unfolding max_capacity available_capacity
used_capacity c = max_capacity c - available_capacity c

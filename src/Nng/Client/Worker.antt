-- ===== src/Nng/Client/Worker.antt =====
-- What a worker task of `NngClient::new` (oysterpack-trust-nng/src/reqrep/client.rs) does with a
-- request: it sends it, waits for the callback, receives, waits again and answers.
use oysterpack.Prelude.{
  ℕ, zero, suc, ◌+◌, ◌-◌, ◌*◌, ◌/◌, ◌%◌, ◌^◌, ◌≤◌, ◌<◌, ◌≡◌, refl, sym, ap, ◌∙◌, subst, ◌≢◌, ◌↔◌,
  ◌⊎◌, inl, inr, Bool, true, false, not, ◌&&◌, ◌||◌, Option, none, some, List, [], ◌∷◌, ◌++◌, map,
  arith, Result, ok, err, ◌>>=◌, ◌>>◌, map_err, is_ok, >>=-eq-ok, ok-injective, Result-cases,
  Outcome, returns, panics, ltb, leb, if◌then◌else◌, Bool-cases, Option-cases, length, is_empty,
  filter, any, all, All, In, first, flat_map, filter_map, All-map, All-In, All-of_In, List-cases,
  length-append, ◌==◌, Eq, nat_eq, list_eq, nat_beq_iff, list_beq_iff, contains, HashMap, get,
  insert, remove, contains_key, keys, values, get-insert, get-remove, contains_key-get,
  contains_key-is_some, contains_key-of_get, is_some,
}
use oysterpack.Nng.Types.{NngError}
use oysterpack.Nng.Context.{Context}
pub mod Reported

-- `RequestError`, without the texts.
pub data RequestError : Type 0 where
  aio_context_pool_channel_disconnected : RequestError
  aio_context_channel_disconnected : RequestError
  reply_channel_closed : RequestError
  send_failed : NngError → RequestError
  recv_failed : NngError → RequestError
  invalid_request : RequestError
  no_reply_message : RequestError

-- `Request`, but for the channel of its reply.
pub record Request (Msg : Type 0) : Type 0 where
  pub msg : Option Msg

-- How a round of the worker's loop ends: with a reply, and then with the worker's sender back in the
-- pool; with `break`; or with a panic. The last two drop the channel of the reply.
pub data Round (Msg State : Type 0) : Type 0 where
  replies : Result Msg RequestError → State → Round Msg State
  breaks : State → Round Msg State
  unwinds : State → Round Msg State

-- `wait` awaits the next callback; it answers `false` if the channel of the callbacks is closed.
module _ {Msg : Type 0} (ctx : Context Msg) (wait : ctx.State → Bool × ctx.State) where
  -- `aio.get_msg()`
  answer : Option Msg × ctx.State → Round Msg ctx.State
  answer (some reply, s) = replies (ok reply) s
  answer (none, s) = replies (err no_reply_message) s

  -- `aio.result().unwrap()` of the receive
  received : ctx.State → Option (Result (Unit {0}) NngError) → Round Msg ctx.State
  unfolding answer
  received s none = unwinds s
  received s (some (ok _)) = answer (ctx.get_msg s)
  received s (some (err e)) = replies (err (recv_failed e)) (ctx.cancel s)

  -- the callback of the receive
  recv_event : Bool × ctx.State → Round Msg ctx.State
  unfolding received
  recv_event (false, s) = breaks s
  recv_event (true, s) = received s (ctx.result s)

  -- `context.recv(&aio)`
  recv_started : Result (Unit {0}) NngError × ctx.State → Round Msg ctx.State
  unfolding recv_event
  recv_started (ok _, s) = recv_event (wait s)
  recv_started (err e, s) = replies (err (recv_failed e)) (ctx.cancel s)

  -- `aio.result().unwrap()` of the send
  transmitted : ctx.State → Option (Result (Unit {0}) NngError) → Round Msg ctx.State
  unfolding recv_started
  transmitted s none = unwinds s
  transmitted s (some (ok _)) = recv_started (ctx.recv s)
  transmitted s (some (err e)) = replies (err (send_failed e)) (ctx.cancel s)

  -- the callback of the send
  send_event : Bool × ctx.State → Round Msg ctx.State
  unfolding transmitted
  send_event (false, s) = breaks s
  send_event (true, s) = transmitted s (ctx.result s)

  -- `context.send(&aio, msg)`
  send_started : Result (Unit {0}) NngError × ctx.State → Round Msg ctx.State
  unfolding send_event
  send_started (ok _, s) = send_event (wait s)
  send_started (err e, s) = replies (err (send_failed e)) (ctx.cancel s)

  -- The body of the loop.
  unfoldable pub handle_request : Request Msg → ctx.State → Round Msg ctx.State
  unfolding send_started
  handle_request req s = elim req.msg [
    | none ↦ replies (err invalid_request) s
    | some msg ↦ send_started (ctx.send msg s)
  ]

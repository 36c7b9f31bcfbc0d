-- ===== src/Nng/Server/Worker.antt =====
-- The worker tasks of `spawn` in oysterpack-trust-nng/src/reqrep/server.rs: each relays the requests
-- of its nng context to the ReqRep service, and the replies back. The service is what a call of
-- `send_recv` does: it answers a reply or the error of the channel.
use oysterpack.Prelude.{
  ℕ, zero, suc, ◌+◌, ◌-◌, ◌*◌, ◌/◌, ◌%◌, ◌^◌, ◌≤◌, ◌<◌, ◌≡◌, refl, sym, ap, ◌∙◌, subst, ◌≢◌, ◌↔◌,
  ◌⊎◌, inl, inr, Bool, true, false, not, ◌&&◌, ◌||◌, Option, none, some, List, [], ◌∷◌, ◌++◌, map,
  arith, Result, ok, err, ◌>>=◌, ◌>>◌, map_err, is_ok, >>=-eq-ok, ok-injective, Result-cases,
  Outcome, returns, panics, ltb, leb, if◌then◌else◌, Bool-cases, Option-cases, length, is_empty,
  filter, any, all, All, In, first, flat_map, filter_map, All-map, All-In, All-of_In, List-cases,
  length-append, ◌==◌, Eq, nat_eq, list_eq, nat_beq_iff, list_beq_iff, contains, HashMap, get,
  insert, remove, contains_key, keys, values, get-insert, get-remove, contains_key-get,
  contains_key-is_some, contains_key-of_get, is_some,
}
use oysterpack.Nng.Types.{NngError, closed, other}
use oysterpack.Nng.Context.{Context}
pub mod Serves
pub mod Live

-- `AioState`; `receiving`, `sending` and `shut` are its `Recv`, `Send` and `Closed`.
pub data AioState : Type 0 where
  receiving : AioState
  sending : AioState
  shut : AioState

-- `Service.send_recv`, with the service's own state.
pub record Backend (Msg : Type 0) : Type 1 where
  pub State : Type 0
  pub Failure : Type 0
  pub send_recv : Msg → State → Result Msg Failure × State

module _ {Msg : Type 0} (ctx : Context Msg) (backend : Backend Msg) where
  -- What a worker works on: its context, and the service behind it.
  pub record World : Type 0 where
    pub nng : ctx.State
    pub service : backend.State

  -- The closure `recv`: an error is logged only.
  unfoldable pub recv : World → AioState × World
  recv w = (receiving, record w { nng = (ctx.recv w.nng).1 })

  unfoldable pub cancel : World → World
  cancel w = record w { nng = ctx.cancel w.nng }

  sent : World → Result (Unit {0}) NngError × ctx.State → AioState × World
  unfolding recv cancel
  sent w (ok _, nng) = (sending, record w { nng = nng })
  sent w (err e, nng) = recv (cancel (record w { nng = nng }))

  -- The closure `send`.
  unfoldable pub send : Msg → World → AioState × World
  unfolding sent
  send msg w = sent w (ctx.send msg w.nng)

  -- The closure `reqrep_send_recv_failed`.
  unfoldable pub reqrep_send_recv_failed : World → AioState × World
  unfolding recv cancel
  reqrep_send_recv_failed w = recv (cancel w)

  -- The closure `no_msg_available`.
  unfoldable pub no_msg_available : World → AioState × World
  unfolding recv cancel
  no_msg_available w = recv (cancel w)

  -- The closure `handle_aio_error`.
  unfoldable pub handle_aio_error : NngError → World → AioState × World
  unfolding recv cancel
  handle_aio_error closed w = (shut, w)
  handle_aio_error (other e) w = recv (cancel w)

  relayed : World → Result Msg backend.Failure × backend.State → AioState × World
  unfolding send reqrep_send_recv_failed
  relayed w (ok reply, service) = send reply (record w { service = service })
  relayed w (err e, service) = reqrep_send_recv_failed (record w { service = service })

  -- `service_client.send_recv(msg)` and what follows it.
  unfoldable pub relay : Msg → World → AioState × World
  unfolding relayed
  relay msg w = relayed w (backend.send_recv msg w.service)

  taken : World → Option Msg × ctx.State → AioState × World
  unfolding relay no_msg_available
  taken w (some msg, nng) = relay msg (record w { nng = nng })
  taken w (none, nng) = no_msg_available (record w { nng = nng })

  -- A request was reported: `aio.get_msg()`.
  unfoldable pub take : World → AioState × World
  unfolding taken
  take w = taken w (ctx.get_msg w.nng)

  -- The two matches on `aio.result().unwrap()`, which panics without a result.
  received : World → Option (Result (Unit {0}) NngError) → Outcome (AioState × World)
  unfolding take handle_aio_error
  received w none = panics
  received w (some (ok _)) = returns (take w)
  received w (some (err e)) = returns (handle_aio_error e w)

  replied : World → Option (Result (Unit {0}) NngError) → Outcome (AioState × World)
  unfolding recv handle_aio_error
  replied w none = panics
  replied w (some (ok _)) = returns (recv w)
  replied w (some (err e)) = returns (handle_aio_error e w)

  -- The body of the loop, run for each Aio event: the worker's next state. In `Closed` the loop is
  -- left.
  unfoldable pub on_event : AioState → World → Outcome (AioState × World)
  unfolding received replied
  on_event receiving w = received w (ctx.result w.nng)
  on_event sending w = replied w (ctx.result w.nng)
  on_event shut w = returns (shut, w)

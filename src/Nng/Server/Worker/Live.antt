-- ===== src/Nng/Server/Worker/Live.antt =====
-- What a worker waits for. nng calls a worker back once for each operation that was started, so a
-- worker runs on only while one is.
use oysterpack.Prelude.{
  ◌≡◌, refl, sym, subst, ◌⊎◌, inl, inr, Option, none, some, arith, Result, ok, err, Outcome,
  returns, panics, nat_eq, list_eq,
}
use oysterpack.Nng.Types.{NngError, closed, other}
use oysterpack.Nng.Context.{Context}
use oysterpack.Nng.Server.Worker.{
  AioState, receiving, sending, shut, Backend, World, recv, cancel, send, reqrep_send_recv_failed,
  no_msg_available, handle_aio_error, relay, take, on_event, sent, relayed, taken, received,
  replied,
}

pub data Operation : Type 0 where
  receive : Operation
  transmit : Operation

-- The operation that a state of the worker stands for.
abbrev pub awaited : AioState → Option Operation
awaited receiving = some receive
awaited sending = some transmit
awaited shut = none

module _ {Msg : Type 0} (ctx : Context Msg) where
  -- A context, with the operation that has been started and not been reported.
  pub record Watch : Type 0 where
    pub inner : ctx.State
    pub pending : Option Operation

  abbrev pub started :
      Operation
      → Watch
      → Result (Unit {0}) NngError × ctx.State
      → Result (Unit {0}) NngError × Watch
  started op w (ok u, s) = (ok u, record { inner = s; pending = some op })
  started op w (err e, s) = (err e, record w { inner = s })

  -- The context, watched: an operation is started by a call that succeeds.
  abbrev pub watched : Context Msg
  watched = record {
    State = Watch;
    recv = λ w. started receive w (ctx.recv w.inner);
    send = λ m w. started transmit w (ctx.send m w.inner);
    cancel = λ w. record w { inner = ctx.cancel w.inner };
    result = λ w. ctx.result w.inner;
    get_msg = λ w. let (m, s) = ctx.get_msg w.inner in (m, record w { inner = s });
  }

module _ {Msg : Type 0} (ctx : Context Msg) (backend : Backend Msg) where
  abbrev pub Watched : Type 0
  Watched = World (watched ctx) backend

  -- The task: in its loop, behind it, or unwound by a panic.
  pub data Task : Type 0 where
    runs : AioState → Watched → Task
    ends : Task
    crashes : Task

  abbrev pub after : Outcome (AioState × Watched) → Task
  after panics = crashes
  after (returns (receiving, w)) = runs receiving w
  after (returns (sending, w)) = runs sending w
  after (returns (shut, w)) = ends

  -- nng reports the pending operation: it has changed its state, and has a result.
  abbrev pub reported : ctx.State → Watched → Watched
  reported s w = record w { nng = record { inner = s; pending = none } }

  pub data Step : Task → Task → Type 0 where
    report :
        {state : AioState} {w : Watched} (op : Operation) (s : ctx.State)
        (r : Result (Unit {0}) NngError)
        → w.nng.pending ≡ some op
        → ctx.result s ≡ some r
        → Step (runs state w) (after (on_event (watched ctx) backend state (reported s w)))

  -- From the start signal on.
  pub data Reach : Task → Type 0 where
    start :
        (w : Watched)
        → w.nng.pending ≡ none
        → Reach (runs receiving (recv (watched ctx) backend w).1)
    next : {t u : Task} → Reach t → Step t u → Reach u

  -- The state is one that a `Context::recv` left that failed.
  abbrev pub RecvFailed : ctx.State → Type 0
  RecvFailed s = (before : ctx.State) × (e : NngError) × (ctx.recv before ≡ (err e, s))

  abbrev pub Live : Task → Type 0
  Live ends = Unit
  Live crashes = ⊥
  Live (runs state w) =
      ((op : Operation) × (awaited state ≡ some op) × (w.nng.pending ≡ some op))
      ⊎ ((state ≡ receiving) × RecvFailed w.nng.inner × ((u : Task) → Step (runs state w) u → ⊥))

  no_step :
      {state : AioState} {w : Watched} {u : Task} → w.nng.pending ≡ none → Step (runs state w) u → ⊥
  no_step e (report op s r f g) = ground (arith)

  started-Live :
      (r : Result (Unit {0}) NngError × ctx.State) (w : Watched)
      → w.nng.pending ≡ none
      → ctx.recv w.nng.inner ≡ r
      → Live (runs receiving (record w { nng = (started ctx receive w.nng r).1 }))
  started-Live (ok _, s) w e f = inl (receive, refl, refl)
  started-Live (err x, s) w e f = inr (refl, (w.nng.inner, x, f), λ u. no_step e)

  recv-Live :
      (w : Watched) → w.nng.pending ≡ none → Live (after (returns (recv (watched ctx) backend w)))
  unfolding recv
  recv-Live w e = started-Live (ctx.recv w.nng.inner) w e refl

  abbrev LiveResult : AioState × Watched → Type 0
  LiveResult x = Live (after (returns x))

  sent-Live :
      (w : Watched) (r : Result (Unit {0}) NngError × ctx.State)
      → w.nng.pending ≡ none
      → LiveResult (sent (watched ctx) backend w (started ctx transmit w.nng r))
  unfolding sent cancel
  sent-Live w (ok _, s) e = inl (transmit, refl, refl)
  sent-Live w (err x, s) e = recv-Live _ e

  handle_aio_error-Live :
      (x : NngError) (w : Watched)
      → w.nng.pending ≡ none
      → LiveResult (handle_aio_error (watched ctx) backend x w)
  unfolding handle_aio_error cancel
  handle_aio_error-Live closed w e = tt
  handle_aio_error-Live (other n) w e = recv-Live _ e

  relayed-Live :
      (w : Watched) (r : Result Msg backend.Failure × backend.State)
      → w.nng.pending ≡ none
      → LiveResult (relayed (watched ctx) backend w r)
  unfolding relayed send reqrep_send_recv_failed cancel
  relayed-Live w (ok rep, s) e = sent-Live (record w { service = s }) (ctx.send rep w.nng.inner) e
  relayed-Live w (err x, s) e = recv-Live _ e

  taken-Live :
      (w : Watched) (m : Option Msg) (s : ctx.State)
      → w.nng.pending ≡ none
      → LiveResult (taken (watched ctx) backend w (m, record (w.nng) { inner = s }))
  unfolding taken no_msg_available relay cancel
  taken-Live w none s e = recv-Live _ e
  taken-Live w (some m) s e =
      relayed-Live (record w { nng = record (w.nng) { inner = s } }) (backend.send_recv m w.service)
        e

  on_event-Live :
      (state : AioState) (w : Watched) (r : Result (Unit {0}) NngError)
      → w.nng.pending ≡ none
      → ctx.result w.nng.inner ≡ some r
      → Live (after (on_event (watched ctx) backend state w))
  unfolding on_event received replied take
  on_event-Live receiving w (ok _) e k =
      subst (λ o. Live (after (received (watched ctx) backend w o))) (sym k)
        (taken-Live w (ctx.get_msg w.nng.inner).0 (ctx.get_msg w.nng.inner).1 e)
  on_event-Live receiving w (err x) e k =
      subst (λ o. Live (after (received (watched ctx) backend w o))) (sym k)
        (handle_aio_error-Live x w e)
  on_event-Live sending w (ok _) e k =
      subst (λ o. Live (after (replied (watched ctx) backend w o))) (sym k) (recv-Live w e)
  on_event-Live sending w (err x) e k =
      subst (λ o. Live (after (replied (watched ctx) backend w o))) (sym k)
        (handle_aio_error-Live x w e)
  on_event-Live shut w r e k = tt

  -- From the start of a worker on, whatever nng and the service answer, as long as nng calls back
  -- only for an operation that it has started and with its result: the worker has ended, or nng is
  -- about to report the operation that the worker's state stands for, or the last
  -- `Context::recv` has failed and the worker, still in its loop, can never go on. It never panics.
  pub Reach-Live : {t : Task} → Reach t → Live t
  unfolding recv
  Reach-Live (start w e) = recv-Live w e
  Reach-Live (next r (report op s x p k)) = on_event-Live _ _ x refl k

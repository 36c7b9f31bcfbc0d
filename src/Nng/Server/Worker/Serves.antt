-- ===== src/Nng/Server/Worker/Serves.antt =====
-- A worker over an nng context without errors is a fold of the service over the requests.
use oysterpack.Prelude.{
  ℕ, zero, suc, ◌+◌, ◌≡◌, refl, sym, ap, ◌∙◌, inl, inr, some, List, [], ◌∷◌, ◌++◌, arith, Result,
  ok, err, Result-cases, Outcome, returns, panics, length, nat_eq, list_eq,
}
use mathlib.Core.List.{append_assoc, append-nil}
use oysterpack.Nng.Context.{Context}
use oysterpack.Nng.Server.Worker.{
  AioState, receiving, sending, shut, Backend, World, recv, cancel, send, reqrep_send_recv_failed,
  relay, take, on_event, sent, relayed, taken, received, replied,
}

-- The clients' side of a context: the requests that are to be received, the replies that were sent,
-- and the state in which nng reports the operation that was started.
pub record Peers {Msg : Type 0} (ctx : Context Msg) : Type 0 where
  pub requests : ctx.State → List Msg
  pub replies : ctx.State → List Msg
  pub reported : ctx.State → ctx.State

-- An nng context without errors: a receive is reported with the next request, a send when the reply
-- has been sent, and the cancelling of an operation that has been reported does nothing.
pub record IsReliable {Msg : Type 0} (ctx : Context Msg) (p : Peers ctx) : Type 0 where
  pub received :
      (s : ctx.State) (m : Msg) (ms : List Msg)
      → p.requests s ≡ m ∷ ms
      → let s' = p.reported (ctx.recv s).1 in
        (ctx.result s' ≡ some (ok tt))
        × ((ctx.get_msg s').0 ≡ some m)
        × (p.requests (ctx.get_msg s').1 ≡ ms)
        × (p.replies (ctx.get_msg s').1 ≡ p.replies s)
  pub sent :
      (s : ctx.State) (m : Msg)
      → let s' = p.reported (ctx.send m s).1 in
        ((ctx.send m s).0 ≡ ok tt)
        × (ctx.result s' ≡ some (ok tt))
        × (p.requests s' ≡ p.requests s)
        × (p.replies s' ≡ p.replies s ++ m ∷ [])
  pub cancelled :
      (s : ctx.State)
      → (p.requests (ctx.cancel s) ≡ p.requests s) × (p.replies (ctx.cancel s) ≡ p.replies s)

module _ {Msg : Type 0} (ctx : Context Msg) (backend : Backend Msg) (p : Peers ctx) where
  -- The loop, for as many events as nng reports; it is left in `Closed`.
  abbrev pub then_run :
      (AioState → World ctx backend → Outcome (AioState × World ctx backend))
      → Outcome (AioState × World ctx backend)
      → Outcome (AioState × World ctx backend)
  then_run rest panics = panics
  then_run rest (returns (shut, w)) = returns (shut, w)
  then_run rest (returns (receiving, w)) = rest receiving w
  then_run rest (returns (sending, w)) = rest sending w

  abbrev pub run : ℕ → AioState → World ctx backend → Outcome (AioState × World ctx backend)
  run zero state w = returns (state, w)
  run (suc n) state w =
      then_run (run n) (on_event ctx backend state (record w { nng = p.reported w.nng }))

  -- The service alone: its replies, without those to requests that it failed, and its state.
  abbrev pub reply : Result Msg backend.Failure → List Msg
  reply (ok m) = m ∷ []
  reply (err e) = []

  abbrev pub serve : List Msg → backend.State → List Msg × backend.State
  serve [] s = ([], s)
  serve (m ∷ ms) s =
      let (answer, s') = backend.send_recv m s in
      let (answers, s'') = serve ms s' in (reply answer ++ answers, s'')

  -- The number of events: one for each request, and one for each reply.
  abbrev pub events : List Msg → backend.State → ℕ
  events ms s = length ms + length (serve ms s).0

  -- The worker waits for a request, after it has received all and has sent those replies.
  abbrev pub Served : Outcome (AioState × World ctx backend) → List Msg → backend.State → Type 0
  Served r done service =
      (s : ctx.State) × (r
        ≡ returns (receiving, record { nng = (ctx.recv s).1; service = service }))
      × (p.requests s ≡ [])
      × (p.replies s ≡ done)

  module _ (reliable : IsReliable ctx p) where
    -- The event of a request.
    on_request :
        (m : Msg) (ms : List Msg) (s : ctx.State) (service : backend.State)
        → p.requests s ≡ m ∷ ms
        → let s' = p.reported (ctx.recv s).1 in
          on_event ctx backend receiving (record { nng = s'; service = service })
          ≡ returns (relay ctx backend m (record { nng = (ctx.get_msg s').1; service = service }))
    unfolding on_event received take taken
    on_request m ms s service e = let (a, b, c, d) = reliable.received s m ms e in rw a (rw b refl)

    -- The service fails a request.
    relay-err :
        (m : Msg) (x : backend.Failure) (s : ctx.State) (service : backend.State)
        → (backend.send_recv m service).0 ≡ err x
        → relay ctx backend m (record { nng = s; service = service }) ≡ (
          receiving,
          record { nng = (ctx.recv (ctx.cancel s)).1; service = (backend.send_recv m service).1 },
        )
    unfolding relay relayed reqrep_send_recv_failed recv cancel
    relay-err m x s service e = rw e refl

    relay-ok :
        (m rep : Msg) (s : ctx.State) (service : backend.State)
        → (backend.send_recv m service).0 ≡ ok rep
        → relay ctx backend m (record { nng = s; service = service }) ≡ (
          sending,
          record { nng = (ctx.send rep s).1; service = (backend.send_recv m service).1 },
        )
    unfolding relay relayed send sent
    relay-ok m rep s service e = rw e (rw (reliable.sent s rep).0 refl)

    -- The event of a reply.
    on_reply :
        (rep : Msg) (s : ctx.State) (service : backend.State)
        → let s' = p.reported (ctx.send rep s).1 in
          on_event ctx backend sending (record { nng = s'; service = service })
          ≡ returns (receiving, record { nng = (ctx.recv s').1; service = service })
    unfolding on_event replied recv
    on_reply rep s service = rw (reliable.sent s rep).1 refl

    -- A request that the service fails takes one event.
    run-err :
        (m : Msg) (ms : List Msg) (x : backend.Failure) (s : ctx.State) (service : backend.State)
        → p.requests s ≡ m ∷ ms
        → (backend.send_recv m service).0 ≡ err x
        → let s1 = (ctx.get_msg (p.reported (ctx.recv s).1)).1 in
          let service' = (backend.send_recv m service).1 in
          run
            (events (m ∷ ms) service)
            receiving
            (record { nng = (ctx.recv s).1; service = service })
          ≡ run
              (events ms service')
              receiving
              (record { nng = (ctx.recv (ctx.cancel s1)).1; service = service' })
    run-err m ms x s service e k =
        let s1 = (ctx.get_msg (p.reported (ctx.recv s).1)).1 in
        let service' = (backend.send_recv m service).1 in
        let n : events (m ∷ ms) service ≡ suc (events ms service') = rw k (omega arith) in
        ap (λ n. run n receiving (record { nng = (ctx.recv s).1; service = service })) n
        ∙ ap (then_run (run (events ms service')))
            (on_request m ms s service e ∙ ap returns (relay-err m x s1 service k))

    -- A request that it answers takes two.
    run-ok :
        (m rep : Msg) (ms : List Msg) (s : ctx.State) (service : backend.State)
        → p.requests s ≡ m ∷ ms
        → (backend.send_recv m service).0 ≡ ok rep
        → let s1 = (ctx.get_msg (p.reported (ctx.recv s).1)).1 in
          let service' = (backend.send_recv m service).1 in
          run
            (events (m ∷ ms) service)
            receiving
            (record { nng = (ctx.recv s).1; service = service })
          ≡ run
              (events ms service')
              receiving
              (record { nng = (ctx.recv (p.reported (ctx.send rep s1).1)).1; service = service' })
    run-ok m rep ms s service e k =
        let s1 = (ctx.get_msg (p.reported (ctx.recv s).1)).1 in
        let service' = (backend.send_recv m service).1 in
        let n : events (m ∷ ms) service ≡ suc (suc (events ms service')) = rw k (omega arith) in
        ap (λ n. run n receiving (record { nng = (ctx.recv s).1; service = service })) n
        ∙ ap (then_run (run (suc (events ms service'))))
            (on_request m ms s service e ∙ ap returns (relay-ok m rep s1 service k))
        ∙ ap (then_run (run (events ms service'))) (on_reply rep s1 service')

    -- A worker of a context without errors that waits for a request is back at waiting for one after
    -- an event for each request and one for each reply, and has sent exactly the replies of the
    -- service to the requests, in their order, each computed in the state that the requests before
    -- left; a request that the service fails has no reply, and the worker goes on behind it.
    pub run-Served :
        (ms : List Msg) (s : ctx.State) (service : backend.State)
        → p.requests s ≡ ms
        → Served
            (run (events ms service) receiving (record { nng = (ctx.recv s).1; service = service }))
            (p.replies s ++ (serve ms service).0)
            (serve ms service).1
    run-Served [] s service e = (s, refl, e, sym (append-nil (p.replies s)))
    run-Served (m ∷ ms) s service e =
        let (a, b, c, d) = reliable.received s m ms e in
        let s1 = (ctx.get_msg (p.reported (ctx.recv s).1)).1 in
        let service' = (backend.send_recv m service).1 in
        let answers = (serve ms service').0 in
        elim (Result-cases (backend.send_recv m service).0) [
          | inl (rep, k) ↦
              let (x, y, q, r) = reliable.sent s1 rep in
              let s2 = p.reported (ctx.send rep s1).1 in
              let (t, f, g, h) = run-Served ms s2 service' (q ∙ c) in
              (
                t,
                run-ok m rep ms s service e k ∙ f,
                g,
                h
                    ∙ ap (λ l. l ++ answers) r
                    ∙ append_assoc (p.replies s1) (rep ∷ []) answers
                    ∙ rw k (ap (λ l. l ++ rep ∷ answers) d),
              )
          | inr (x, k) ↦
              let (q, r) = reliable.cancelled s1 in
              let (t, f, g, h) = run-Served ms (ctx.cancel s1) service' (q ∙ c) in
              (t, run-err m ms x s service e k ∙ f, g, h ∙ rw k (ap (λ l. l ++ answers) (r ∙ d)))
        ]

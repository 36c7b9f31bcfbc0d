-- ===== src/Nng/Client/Worker/Reported.antt =====
-- Over an nng context that reports each operation, a worker answers each request and goes on.
use oysterpack.Prelude.{
  ◌≡◌, refl, sym, subst, Bool, true, Option, none, some, Result, ok, err, nat_eq, list_eq,
}
use oysterpack.Nng.Types.{NngError}
use oysterpack.Nng.Context.{Context}
use oysterpack.Nng.Client.Worker.{
  RequestError, send_failed, recv_failed, no_reply_message, Round, replies, handle_request,
  send_started, send_event, transmitted, recv_started, recv_event, received, answer,
}

module _ {Msg : Type 0} (ctx : Context Msg) (wait : ctx.State → Bool × ctx.State) where
  -- What nng documents: the callback of an operation that was started is called, and there is a
  -- result then.
  pub record Reports : Type 0 where
    pub called : (s : ctx.State) → (wait s).0 ≡ true
    pub has_result :
        (s : ctx.State) → (r : Result (Unit {0}) NngError) × (ctx.result (wait s).1 ≡ some r)

  -- And what it documents of requests: a message that is received with success, after a request
  -- was sent with success, is a reply of the peer to that request. `IsReply` says what the peer may
  -- reply; the other predicates say how far the exchange of a request is.
  pub record Exchanges : Type 1 where
    pub IsReply : Msg → Msg → Type 0
    pub Sending : Msg → ctx.State → Type 0
    pub Sent : Msg → ctx.State → Type 0
    pub Receiving : Msg → ctx.State → Type 0
    pub Received : Msg → ctx.State → Type 0
    pub starts_send :
        (m : Msg) (s s' : ctx.State) (u : Unit {0}) → ctx.send m s ≡ (ok u, s') → Sending m s'
    pub reports_send :
        (m : Msg) (s : ctx.State) (u : Unit {0})
        → Sending m s
        → ctx.result (wait s).1 ≡ some (ok u)
        → Sent m (wait s).1
    pub starts_recv :
        (m : Msg) (s s' : ctx.State) (u : Unit {0})
        → Sent m s
        → ctx.recv s ≡ (ok u, s')
        → Receiving m s'
    pub reports_recv :
        (m : Msg) (s : ctx.State) (u : Unit {0})
        → Receiving m s
        → ctx.result (wait s).1 ≡ some (ok u)
        → Received m (wait s).1
    pub gets_reply :
        (m r : Msg) (s s' : ctx.State) → Received m s → ctx.get_msg s ≡ (some r, s') → IsReply m r

  module _ (exchanges : Exchanges) where
    -- A reply of the peer to the request, or an error of nng in its place.
    pub data IsAnswer (m : Msg) : Result Msg RequestError → Type 0 where
      of_peer : (r : Msg) → exchanges.IsReply m r → IsAnswer m (ok r)
      of_send : (e : NngError) → IsAnswer m (err (send_failed e))
      of_recv : (e : NngError) → IsAnswer m (err (recv_failed e))
      of_message : IsAnswer m (err no_reply_message)

    abbrev pub Answers : Msg → Round Msg ctx.State → Type 0
    Answers m r = (a : Result Msg RequestError) × (s : ctx.State) × (r ≡ replies a s) × IsAnswer m a

    module _ (reports : Reports) (m : Msg) where
      answer-Answers :
          (s : ctx.State) (x : Option Msg × ctx.State)
          → ctx.get_msg s ≡ x
          → exchanges.Received m s
          → Answers m (answer ctx wait x)
      unfolding answer
      answer-Answers s (some r, s') e k =
          (ok r, s', refl, of_peer r (exchanges.gets_reply m r s s' k e))
      answer-Answers s (none, s') e k = (err no_reply_message, s', refl, of_message)

      received-Answers :
          (s : ctx.State) (r : Result (Unit {0}) NngError)
          → ctx.result (wait s).1 ≡ some r
          → exchanges.Receiving m s
          → Answers m (received ctx wait (wait s).1 (some r))
      unfolding received
      received-Answers s (ok u) e k =
          let s' = (wait s).1 in
          answer-Answers s' (ctx.get_msg s') refl (exchanges.reports_recv m s u k e)
      received-Answers s (err x) e k = (_, _, refl, of_recv x)

      recv_event-Answers :
          (s : ctx.State) → exchanges.Receiving m s → Answers m (recv_event ctx wait (wait s))
      unfolding recv_event
      recv_event-Answers s k =
          let (r, e) = reports.has_result s in
          subst (λ b. Answers m (recv_event ctx wait (b, (wait s).1))) (sym (reports.called s))
            (subst (λ o. Answers m (received ctx wait (wait s).1 o)) (sym e)
              (received-Answers s r e k))

      recv_started-Answers :
          (s : ctx.State) (x : Result (Unit {0}) NngError × ctx.State)
          → ctx.recv s ≡ x
          → exchanges.Sent m s
          → Answers m (recv_started ctx wait x)
      unfolding recv_started
      recv_started-Answers s (ok u, s') e k =
          recv_event-Answers s' (exchanges.starts_recv m s s' u k e)
      recv_started-Answers s (err x, s') e k = (_, _, refl, of_recv x)

      transmitted-Answers :
          (s : ctx.State) (r : Result (Unit {0}) NngError)
          → ctx.result (wait s).1 ≡ some r
          → exchanges.Sending m s
          → Answers m (transmitted ctx wait (wait s).1 (some r))
      unfolding transmitted
      transmitted-Answers s (ok u) e k =
          let s' = (wait s).1 in
          recv_started-Answers s' (ctx.recv s') refl (exchanges.reports_send m s u k e)
      transmitted-Answers s (err x) e k = (_, _, refl, of_send x)

      send_event-Answers :
          (s : ctx.State) → exchanges.Sending m s → Answers m (send_event ctx wait (wait s))
      unfolding send_event
      send_event-Answers s k =
          let (r, e) = reports.has_result s in
          subst (λ b. Answers m (send_event ctx wait (b, (wait s).1))) (sym (reports.called s))
            (subst (λ o. Answers m (transmitted ctx wait (wait s).1 o)) (sym e)
              (transmitted-Answers s r e k))

      send_started-Answers :
          (s : ctx.State) (x : Result (Unit {0}) NngError × ctx.State)
          → ctx.send m s ≡ x
          → Answers m (send_started ctx wait x)
      unfolding send_started
      send_started-Answers s (ok u, s') e = send_event-Answers s' (exchanges.starts_send m s s' u e)
      send_started-Answers s (err x, s') e = (_, _, refl, of_send x)

      pub handle_request-Answers :
          (s : ctx.State) → Answers m (handle_request ctx wait (record { msg = some m }) s)
      unfolding handle_request
      handle_request-Answers s = send_started-Answers s (ctx.send m s) refl

-- ===== src/Examples/Rpcs.antt =====
-- A client with two tickets: a request that waits for its reply, and one that could not be sent.
use oysterpack.Prelude.{
  ℕ, ◌+◌, ◌≡◌, refl, true, false, none, some, [], ◌∷◌, ok, err, returns, nat_eq, list_eq,
}
use oysterpack.Nng.Types.{closed}
use oysterpack.Rpc.Client.{
  receiving, sending, aio_send_error, aio_receive_error, AsyncClient, Call, Answers, Report, build,
  remove_context, start_send, submit, close, callback, used_capacity, max_capacity,
  available_capacity,
}
use oysterpack.Rpc.Client.Tickets.{
  in_flight, Reach, built, submitted, failed, called_back, used_capacity-Reach,
}

abbrev works : Answers
works = record { context = ok tt; aio = ok tt; send = ok tt }

abbrev unsent : Answers
unsent = record { context = ok tt; aio = ok tt; send = err closed }

abbrev sent_request : Call
sent_request = record { context_key = 7; aio_state = sending; in_progress = true }

abbrev waiting_request : Call
waiting_request = record { context_key = 7; aio_state = receiving; in_progress = true }

abbrev one_out : AsyncClient
one_out = record { capacity = 2; tickets = 1; listening = true; aio_context_registry_chan = [] }

abbrev none_left : AsyncClient
none_left = record { capacity = 2; tickets = 0; listening = true; aio_context_registry_chan = [] }

submit-works : submit 7 works (build (some 2)) ≡ (ok sent_request, one_out)
unfolding submit build start_send
submit-works = refl

submit-unsent : submit 8 unsent one_out ≡ (err (aio_send_error closed), none_left)
unfolding submit start_send
submit-unsent = refl

abbrev request_sent : Report ℕ
request_sent = record { result = ok tt; recv = ok tt; msg = none }

abbrev reply_failed : Report ℕ
reply_failed = record { result = err closed; recv = ok tt; msg = none }

callback-sent :
    callback none_left sent_request request_sent ≡ returns (none_left, waiting_request, none)
unfolding callback
callback-sent = refl

-- An error of nng gives the ticket back.
callback-failed :
    callback none_left waiting_request reply_failed
    ≡ returns (
      record none_left { tickets = 1; aio_context_registry_chan = remove_context 7 ∷ [] },
      record waiting_request { in_progress = false },
      some (err (aio_receive_error closed)),
    )
unfolding callback close
callback-failed = refl

abbrev waits : Reach ℕ 1 none_left (waiting_request ∷ [])
waits =
    called_back sent_request waiting_request [] [] request_sent none
      (failed 8 unsent (aio_send_error closed)
        (submitted 7 works sent_request (built (some 2)) submit-works) submit-unsent)
      refl callback-sent

used_capacity-Reach_example :
    (available_capacity none_left + in_flight (waiting_request ∷ []) + 1 ≡ max_capacity none_left)
    × (used_capacity none_left ≡ in_flight (waiting_request ∷ []) + 1)
used_capacity-Reach_example = used_capacity-Reach waits

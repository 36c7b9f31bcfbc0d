-- ===== src/ReqRep/Replies.antt =====
-- What the clients of a service are answered, and what a panic of the processor does to them.
use oysterpack.Prelude.{
  ℕ, ◌+◌, ◌%◌, ◌^◌, ◌≡◌, refl, ap, sym, ◌∙◌, List, [], ◌∷◌, ◌++◌, none, some, Result, ok, err,
  ◌>>=◌, arith, true,
}
use oysterpack.ReqRep.Service.{
  Processor, ReqRepMessage, Service, settle, handle, handle_all, shut_down, service, uncount, task,
}
use oysterpack.ReqRep.Accounts.{began}
use mathlib.Core.List.{append_assoc, append-nil}

-- A request that `ReqRep::send` makes, of its sender and the request.
abbrev pub message : {Req : Type 0} → ℕ × Req → ReqRepMessage Req
message (sender, req) = record { req = some req; rep_sender = sender }

abbrev pub messages : {Req : Type 0} → List (ℕ × Req) → List (ReqRepMessage Req)
messages [] = []
messages (r ∷ rs) = message r ∷ messages rs

module _ {Req Rep : Type 0} (p : Processor Req Rep) where
  -- `handle_all`, where it is cut.
  pub handle_all-append :
      (ms ns : List (ReqRepMessage Req)) (s : Service p)
      → handle_all p (ms ++ ns) s ≡ (handle_all p ms s >>= handle_all p ns)
  unfolding handle_all
  handle_all-append [] ns s = refl
  handle_all-append (m ∷ ms) ns s =
      elim (handle p m s)
        as (λ r. (r >>= handle_all p (ms ++ ns)) ≡ (r >>= handle_all p ms >>= handle_all p ns)) [
          | ok s' ↦ handle_all-append ms ns s'
          | err s' ↦ refl
        ]

  -- The task, where `init` succeeds, by how the loop ends.
  task_cases :
      (msgs : List (ReqRepMessage Req)) (s : Service p) (state : p.State)
      (r : Result (Service p) (Service p))
      → p.init s.processor ≡ some state
      → handle_all p msgs (began p state s) ≡ r
      → task p msgs s ≡ uncount p (r >>= shut_down p)
  unfolding task service
  task_cases msgs s state r i h = rw (i, service) (rw (h, service) refl)

  module _ (answer : p.State → Req → p.State × Rep) where
    -- The replies of a fold over the requests, and the state that it ends in.
    abbrev pub replies : p.State → List (ℕ × Req) → List (ℕ × Rep)
    replies st [] = []
    replies st ((sender, r) ∷ rs) = (sender, (answer st r).1) ∷ replies (answer st r).0 rs

    abbrev pub ends : p.State → List (ℕ × Req) → p.State
    ends st [] = st
    ends st ((sender, r) ∷ rs) = ends (answer st r).0 rs

  module _ (answer : p.State → Req → p.State × Rep)
      (answers : (st : p.State) (r : Req)
        → p.process st r ≡ some ((answer st r).0, ok (answer st r).1)) where
    handle-answer :
        (sender : ℕ) (r : Req) (s : Service p)
        → handle p (message (sender, r)) s
          ≡ settle p sender
              (answer s.processor r).0
              (record s { request_count = (s.request_count + 1) % 2 ^ 64 })
              (ok (answer s.processor r).1)
    unfolding handle
    handle-answer sender r s = rw (answers s.processor r, handle) refl

    -- A processor that never panics.
    handle_all-replies :
        (rs : List (ℕ × Req)) (s : Service p)
        → (s' : Service p) × (handle_all p (messages rs) s ≡ ok s')
          × (s'.replies ≡ s.replies ++ replies answer s.processor rs)
          × (s'.processor ≡ ends answer s.processor rs)
          × (s'.metrics.panic_count ≡ s.metrics.panic_count)
    unfolding handle_all
    handle_all-replies [] s = (s, refl, sym (append-nil s.replies), refl, refl)
    handle_all-replies ((sender, r) ∷ rs) s =
        let (st, rep) = answer s.processor r in
        let s1 : Service p = record s {
          processor = st;
          request_count = (s.request_count + 1) % 2 ^ 64;
          replies = s.replies ++ (sender, rep) ∷ [];
          metrics = record (s.metrics) { timer = s.metrics.timer + 1 };
        } in
        let h : handle p (message (sender, r)) s ≡ ok s1 =
          handle-answer sender r s ∙ (unfold settle in refl) in
        let (s', e, reps, proc, panics) = handle_all-replies rs s1 in
        (
          s',
          ap (λ x. x >>= handle_all p (messages rs)) h ∙ e,
          reps ∙ append_assoc s.replies ((sender, rep) ∷ []) (replies answer st rs),
          proc,
          panics,
        )

    uncount-replies :
        (x : Service p)
        → ((uncount p (shut_down p x)).replies ≡ x.replies)
          × ((uncount p (shut_down p x)).metrics.panic_count ≡ x.metrics.panic_count)
    unfolding uncount shut_down
    uncount-replies x = ground arith

    uncount-shut_down :
        (x : Service p) (state : p.State)
        → p.destroy x.processor ≡ some state
        → ((uncount p (shut_down p x)).destroyed ≡ true)
          × ((uncount p (shut_down p x)).processor ≡ state)
    unfolding uncount shut_down
    uncount-shut_down x state h = rw (h, uncount, shut_down) (refl, refl)

    -- A service whose `init` succeeds and whose processor never panics sends, to the sender of each
    -- request and to nobody else, the reply of a fold of the processor over the requests in the
    -- order of the channel, one reply for each, and counts no panic. If `destroy` succeeds in the
    -- state that the fold ends in, then the service ends destroyed, in the state that it left.
    pub task-replies :
        (rs : List (ℕ × Req)) (s : Service p) (state : p.State)
        → p.init s.processor ≡ some state
        → ((task p (messages rs) s).replies ≡ s.replies ++ replies answer state rs)
          × ((task p (messages rs) s).metrics.panic_count ≡ s.metrics.panic_count)
          × ((state' : p.State)
              → p.destroy (ends answer state rs) ≡ some state'
              → ((task p (messages rs) s).destroyed ≡ true)
                × ((task p (messages rs) s).processor ≡ state'))
    task-replies rs s state i =
        let (s', e, reps, proc, panics) = handle_all-replies rs (began p state s) in
        let t = task_cases (messages rs) s state (ok s') i e in
        let u = uncount-replies s' in
        (
          ap (λ (x : Service p). x.replies) t ∙ u.0 ∙ reps,
          ap (λ (x : Service p). x.metrics.panic_count) t ∙ u.1 ∙ panics,
          λ state' d.
              let v = uncount-shut_down s' state' (ap p.destroy proc ∙ d) in
              (
                ap (λ (x : Service p). x.destroyed) t ∙ v.0,
                ap (λ (x : Service p). x.processor) t ∙ v.1,
              ),
        )

  module _ (sender : ℕ) (req : Req) (x : Service p) (state : p.State) (e : p.PanicError)
      (panicking : p.process x.processor req ≡ some (state, err e)) where
    -- The service when the panic of the request has been counted.
    abbrev pub struck : p.State → Service p
    struck st = record x {
      processor = st;
      request_count = (x.request_count + 1) % 2 ^ 64;
      metrics = record (x.metrics) { panic_count = x.metrics.panic_count + 1 };
    }

    handle-none :
        p.panicked state e ≡ none → handle p (message (sender, req)) x ≡ err (struck state)
    unfolding handle settle
    handle-none h = rw (panicking, handle) (rw (h, settle) refl)

    handle-some :
        (state' : p.State)
        → p.panicked state e ≡ some state'
        → handle p (message (sender, req)) x ≡ ok (struck state')
    unfolding handle settle
    handle-some state' h = rw (panicking, handle) (rw (h, settle) refl)

    module _ (before : List (ReqRepMessage Req)) (s : Service p) (st : p.State)
        (init : p.init s.processor ≡ some st) (reached : handle_all p before (began p st s) ≡ ok x)
        (after : List (ReqRepMessage Req)) where
      struck-handle_all :
          (r : Result (Service p) (Service p))
          → handle p (message (sender, req)) x ≡ r
          → handle_all p (before ++ message (sender, req) ∷ after) (began p st s)
            ≡ (r >>= handle_all p after)
      struck-handle_all r h =
          handle_all-append before (message (sender, req) ∷ after) (began p st s)
          ∙ ap (λ y. y >>= handle_all p (message (sender, req) ∷ after)) reached
          ∙ (unfold handle_all in ap (λ y. y >>= handle_all p after) h)

      -- A request makes the processor panic after `before` was handled. If `panicked` panics too,
      -- as it does by default, then the task ends with that panic counted and the service uncounted:
      -- whatever requests follow, none of them is answered, and `destroy` is not called.
      pub task-panicked-none :
          p.panicked state e ≡ none
          → task p (before ++ message (sender, req) ∷ after) s ≡ uncount p (err (struck state))
      task-panicked-none h =
          task_cases (before ++ message (sender, req) ∷ after) s st (err (struck state)) init
            (struck-handle_all (err (struck state)) (handle-none h))

      -- If `panicked` recovers instead, the service goes on with the requests that follow, from the
      -- state that `panicked` left, with no reply to the request and the panic counted once.
      pub task-panicked-some :
          (state' : p.State)
          → p.panicked state e ≡ some state'
          → task p (before ++ message (sender, req) ∷ after) s
            ≡ uncount p (handle_all p after (struck state') >>= shut_down p)
      task-panicked-some state' h =
          task_cases (before ++ message (sender, req) ∷ after) s st
            (handle_all p after (struck state')) init
            (struck-handle_all (ok (struck state')) (handle-some state' h))

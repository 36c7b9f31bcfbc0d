-- ===== src/ReqRep/Accounts.antt =====
-- What the metrics of a service count, from its start to its end.
use oysterpack.Prelude.{
  ℕ, ◌+◌, ◌%◌, ◌^◌, ◌≡◌, ◌≢◌, refl, ap, sym, ◌∙◌, ◌⊎◌, inl, inr, true, false, List, length, none,
  some, Result, ok, err, arith, Option-cases, Result-cases,
}
use oysterpack.ReqRep.Gauge.{ℤ, inc, dec, dec-inc}
use oysterpack.ReqRep.Service.{
  Processor, ReqRepMessage, Service, handle_all, shut_down, service, uncount, task,
}
use oysterpack.ReqRep.Messages.{
  final, Counted, handle_all-service_count, handle_all-destroyed, handle_all-Counted,
}

module _ {Req Rep : Type 0} (p : Processor Req Rep) where
  -- The service behind its `init`.
  abbrev pub began : p.State → Service p → Service p
  began state s = record s {
    processor = state;
    metrics = record (s.metrics) { service_count = inc s.metrics.service_count };
    request_count = 0;
  }

  -- The ways in which a service ends.
  pub service_cases {ℓ} :
      (msgs : List (ReqRepMessage Req)) (s : Service p)
      (P : Result (Service p) (Service p) → Type ℓ)
      → (p.init s.processor ≡ none → P (err s))
      → ((state : p.State) (x : Service p)
          → p.init s.processor ≡ some state
          → handle_all p msgs (began state s) ≡ err x
          → P (err x))
      → ((state : p.State) (x : Service p)
          → p.init s.processor ≡ some state
          → handle_all p msgs (began state s) ≡ ok x
          → P (shut_down p x))
      → P (service p msgs s)
  service_cases msgs s P failed died ended = elim (Option-cases (p.init s.processor)) [
    | inl e ↦ unfold service in rw (e, service) (failed e)
    | inr (state, e) ↦ elim (Result-cases (handle_all p msgs (began state s))) [
      | inl (x, h) ↦ unfold service in rw (e, service) (rw (h, service) (ended state x e h))
      | inr (x, h) ↦ unfold service in rw (e, service) (rw (h, service) (died state x e h))
    ]
  ]

  abbrev counted : Result (Service p) (Service p) → ℤ
  counted r = (uncount p r).metrics.service_count

  counted-final :
      (r : Result (Service p) (Service p)) → counted r ≡ dec (final p r).metrics.service_count
  unfolding uncount
  counted-final (ok s) = refl
  counted-final (err s) = refl

  shut_down-service_count :
      (s : Service p) → (final p (shut_down p s)).metrics.service_count ≡ s.metrics.service_count
  unfolding shut_down
  shut_down-service_count s = ground arith

  -- What was counted up by the service is counted down by its task.
  recounted :
      (msgs : List (ReqRepMessage Req)) (s x : Service p) (state : p.State)
      (r : Result (Service p) (Service p))
      → final p (handle_all p msgs (began state s)) ≡ x
      → (final p r).metrics.service_count ≡ x.metrics.service_count
      → counted r ≡ s.metrics.service_count
  recounted msgs s x state r h k =
      counted-final r
      ∙ ap dec (
          k
          ∙ ap (λ (y : Service p). y.metrics.service_count) (sym h)
          ∙ handle_all-service_count p msgs (began state s))
      ∙ dec-inc s.metrics.service_count

  -- The gauge of running services ends where it began, but one lower if `init` panics.
  pub task-service_count :
      (msgs : List (ReqRepMessage Req)) (s : Service p)
      → ((p.init s.processor ≡ none)
          × ((task p msgs s).metrics.service_count ≡ dec s.metrics.service_count))
        ⊎ ((p.init s.processor ≢ none)
            × ((task p msgs s).metrics.service_count ≡ s.metrics.service_count))
  unfolding task
  task-service_count msgs s =
      service_cases msgs s
        (λ r.
          ((p.init s.processor ≡ none) × (counted r ≡ dec s.metrics.service_count))
          ⊎ ((p.init s.processor ≢ none) × (counted r ≡ s.metrics.service_count)))
        (λ e. inl (e, counted-final (err s)))
        (λ state x e h. inr ((λ q. cc), recounted msgs s x state (err x) (ap (final p) h) refl))
        (λ state x e h. inr (
          (λ q. cc),
          recounted msgs s x state (shut_down p x) (ap (final p) h) (shut_down-service_count x),
        ))

  -- The accounts of a task that started at `s` and ended at `s'`, after n messages.
  abbrev pub Settled : ℕ → Service p → Service p → Type 0
  Settled n s s' =
      (s'.metrics.timer + s'.metrics.panic_count ≡ s.metrics.timer + s.metrics.panic_count + n)
      × (length s'.replies + s.metrics.timer ≡ length s.replies + s'.metrics.timer)
      × (s'.request_count ≡ n % 2 ^ 64)

  Counted-Settled :
      (n : ℕ) (state : p.State) (s x : Service p)
      → Counted p (began state s) x n
      → Settled n s (uncount p (shut_down p x))
  unfolding uncount shut_down
  Counted-Settled n state s x c = elim (Option-cases (p.destroy x.processor)) [
    | inl e ↦ rw (e, uncount, shut_down) (c.answered, c.observed, omega (arith, c.requests))
    | inr (state', e) ↦
        rw (e, uncount, shut_down) (c.answered, c.observed, omega (arith, c.requests))
  ]

  uncount-destroyed :
      (r : Result (Service p) (Service p)) → (uncount p r).destroyed ≡ (final p r).destroyed
  unfolding uncount
  uncount-destroyed (ok s) = refl
  uncount-destroyed (err s) = refl

  -- A service that comes to its end without a panic that leaves the loop has run `destroy`; then it
  -- has received every request once, and has for each either an observed reply or a counted panic.
  pub task-accounts :
      (msgs : List (ReqRepMessage Req)) (s : Service p)
      → s.destroyed ≡ false
      → (task p msgs s).destroyed ≡ true
      → Settled (length msgs) s (task p msgs s)
  unfolding task
  task-accounts msgs s d =
      service_cases msgs s
        (λ r. (uncount p r).destroyed ≡ true → Settled (length msgs) s (uncount p r))
        (λ e t. absurd (cc))
        (λ state x e h t.
          let kept : x.destroyed ≡ false =
            ap (λ r. (final p r).destroyed) (sym h)
            ∙ handle_all-destroyed p msgs (began state s)
            ∙ d in
          absurd (cc))
        (λ state x e h t.
          Counted-Settled (length msgs) state s x
            (handle_all-Counted p msgs (began state s) x (omega arith) h))

-- ===== src/ReqRep/Messages.antt =====
-- What the messages that a service handles add to its metrics.
use oysterpack.Prelude.{
  ℕ, ◌+◌, ◌%◌, ◌^◌, ◌<◌, ◌≡◌, refl, ap, sym, ◌∙◌, inl, inr, List, [], ◌∷◌, length, length-append,
  Result, ok, err, arith, Option-cases, Result-cases, subst, ok-injective, >>=-eq-ok,
}
use oysterpack.ReqRep.Service.{Processor, ReqRepMessage, Service, handle, handle_all, settle}

module _ {Req Rep : Type 0} (p : Processor Req Rep) where
  -- The state in which a computation ends, in either way.
  abbrev pub final : Result (Service p) (Service p) → Service p
  final (ok s) = s
  final (err s) = s

  handle-service_count :
      (m : ReqRepMessage Req) (s : Service p)
      → (final (handle p m s)).metrics.service_count ≡ s.metrics.service_count
  unfolding handle
  handle-service_count m s = ground arith

  pub handle_all-service_count :
      (ms : List (ReqRepMessage Req)) (s : Service p)
      → (final (handle_all p ms s)).metrics.service_count ≡ s.metrics.service_count
  unfolding handle_all
  handle_all-service_count [] s = refl
  handle_all-service_count (m ∷ ms) s = elim (Result-cases (handle p m s)) [
    | inl (s', e) ↦ rw e (
        handle_all-service_count ms s'
        ∙ ap (λ r. (final r).metrics.service_count) (sym e)
        ∙ handle-service_count m s)
    | inr (s', e) ↦
        rw e (ap (λ r. (final r).metrics.service_count) (sym e) ∙ handle-service_count m s)
  ]

  handle-destroyed :
      (m : ReqRepMessage Req) (s : Service p) → (final (handle p m s)).destroyed ≡ s.destroyed
  unfolding handle
  handle-destroyed m s = ground arith

  pub handle_all-destroyed :
      (ms : List (ReqRepMessage Req)) (s : Service p)
      → (final (handle_all p ms s)).destroyed ≡ s.destroyed
  unfolding handle_all
  handle_all-destroyed [] s = refl
  handle_all-destroyed (m ∷ ms) s = elim (Result-cases (handle p m s)) [
    | inl (s', e) ↦
        rw e (
          handle_all-destroyed ms s' ∙ ap (λ r. (final r).destroyed) (sym e) ∙ handle-destroyed m s)
    | inr (s', e) ↦ rw e (ap (λ r. (final r).destroyed) (sym e) ∙ handle-destroyed m s)
  ]

  -- What one message adds to the accounts, if the loop goes on.
  pub record Counted (s s' : Service p) (n : ℕ) : Type 0 where
    pub answered :
        s'.metrics.timer + s'.metrics.panic_count ≡ s.metrics.timer + s.metrics.panic_count + n
    pub observed : length s'.replies + s.metrics.timer ≡ length s.replies + s'.metrics.timer
    pub requests : s'.request_count ≡ (s.request_count + n) % 2 ^ 64
    pub alive : s'.destroyed ≡ s.destroyed

  -- A settled message, but for the request count, which is kept at the start of the round.
  settle-Counted :
      (sender : ℕ) (state : p.State) (s s' : Service p) (rep : Result Rep p.PanicError)
      → settle p sender state s rep ≡ ok s'
      → (s'.metrics.timer + s'.metrics.panic_count ≡ s.metrics.timer + s.metrics.panic_count + 1)
        × (length s'.replies + s.metrics.timer ≡ length s.replies + s'.metrics.timer)
        × (s'.request_count ≡ s.request_count)
        × (s'.destroyed ≡ s.destroyed)
  unfolding settle
  settle-Counted sender state s s' (ok rep) h =
      ground (arith, length-append s.replies ((sender, rep) ∷ []))
  settle-Counted sender state s s' (err e) h = ground arith

  handle-Counted :
      (m : ReqRepMessage Req) (s s' : Service p) → handle p m s ≡ ok s' → Counted s s' 1
  unfolding handle
  handle-Counted m s s' h = elim (Option-cases m.req) [
    | inl e ↦ absurd (ground arith)
    | inr (req, e) ↦ elim (Option-cases (p.process s.processor req)) [
      | inl f ↦ absurd (ground arith)
      | inr ((state, rep), f) ↦
          let s1 : Service p = record s { request_count = (s.request_count + 1) % 2 ^ 64 } in
          let g : settle p m.rep_sender state s1 rep ≡ ok s' = rw (e, handle, f) at h in
          let c = settle-Counted m.rep_sender state s1 s' rep g in
          record { answered = c.0; observed = c.1; requests = c.2; alive = c.3 }
    ]
  ]

  pub handle_all-Counted :
      (ms : List (ReqRepMessage Req)) (s s' : Service p)
      → s.request_count < 2 ^ 64
      → handle_all p ms s ≡ ok s'
      → Counted s s' (length ms)
  unfolding handle_all
  handle_all-Counted [] s s' b h =
      subst (λ t. Counted s t 0) (ok-injective h)
        (record { answered = omega arith; observed = refl; requests = omega arith; alive = refl })
  handle_all-Counted (m ∷ ms) s s' b h =
      let (s1, e, k) = >>=-eq-ok (handle p m s) (handle_all p ms) h in
      let c = handle-Counted m s s1 e in
      let d = handle_all-Counted ms s1 s' (omega (arith, c.requests)) k in
      record {
        answered = omega (arith, c.answered, d.answered);
        observed = omega (arith, c.observed, d.observed);
        requests = omega (arith, c.requests, d.requests);
        alive = d.alive ∙ c.alive;
      }

-- ===== src/ReqRep/Service.antt =====
-- The backend of `ReqRep::start_service` in oysterpack-trust/src/concurrent/messaging/reqrep.rs: the
-- task that runs a `Processor` over the messages that it receives until all clients are gone.
use oysterpack.Prelude.{
  ℕ, ◌+◌, ◌%◌, ◌^◌, Bool, true, List, [], ◌∷◌, ◌++◌, Option, none, some, Result, ok, err, ◌>>=◌,
  nat_eq,
}
use oysterpack.ReqRep.Gauge.{ℤ, inc, dec}

-- `trait Processor`, which the source's users implement. A hook or a call that panics answers
-- `none`; the future of `process` ends in a reply or in the panic that `catch_unwind` caught.
pub record Processor (Req Rep : Type 0) : Type 1 where
  pub State : Type 0
  pub PanicError : Type 0
  pub init : State → Option State
  pub process : State → Req → Option (State × Result Rep PanicError)
  pub panicked : State → PanicError → Option State
  pub destroy : State → Option State

-- The default of `panicked`: `panic!(err)`.
abbrev pub default_panicked : {State PanicError : Type 0} → State → PanicError → Option State
default_panicked s e = none

-- `ReqRepMessage`; `rep_sender` names the oneshot channel of the reply.
pub record ReqRepMessage (Req : Type 0) : Type 0 where
  pub req : Option Req
  pub rep_sender : ℕ

-- `ReqRepMessage::take_request`: what is taken, and the message without it.
unfoldable pub take_request : {Req : Type 0} → ReqRepMessage Req → Option Req × ReqRepMessage Req
take_request m = (m.req, record m { req = none })

-- `ReqRepServiceMetrics`: the observations of the timer are counted. The 64 bits of the counters of
-- the crate prometheus are left out.
pub record ReqRepServiceMetrics : Type 0 where
  pub timer : ℕ
  pub service_count : ℤ
  pub panic_count : ℕ

module _ {Req Rep : Type 0} (p : Processor Req Rep) where
  -- What the task holds and what it has sent; `destroyed` says whether `destroy` has run.
  pub record Service : Type 0 where
    pub processor : p.State
    pub metrics : ReqRepServiceMetrics
    pub request_count : ℕ
    pub replies : List (ℕ × Rep)
    pub destroyed : Bool

  -- The two arms of `match rep`. A reply that nobody awaits any more is an error that is ignored.
  unfoldable pub settle : ℕ → p.State → Service → Result Rep p.PanicError → Result Service Service
  settle sender state s (ok rep) = ok (record s {
    processor = state;
    replies = s.replies ++ (sender, rep) ∷ [];
    metrics = record (s.metrics) { timer = s.metrics.timer + 1 };
  })
  settle sender state s (err e) =
      let s' = record s {
        processor = state;
        metrics = record (s.metrics) { panic_count = s.metrics.panic_count + 1 };
      } in
      elim (p.panicked state e) [
        | some state' ↦ ok (record s' { processor = state' })
        | none ↦ err s'
      ]

  -- One round of the loop: `err` is a panic that leaves the loop.
  unfoldable pub handle : ReqRepMessage Req → Service → Result Service Service
  unfolding settle take_request
  handle msg s =
      let s' = record s { request_count = (s.request_count + 1) % 2 ^ 64 } in
      elim (take_request msg).0 [
        | none ↦ err s'
        | some req ↦ elim (p.process s.processor req) [
          | none ↦ err s'
          | some (state, rep) ↦ settle msg.rep_sender state s' rep
        ]
      ]

  unfoldable pub handle_all : List (ReqRepMessage Req) → Service → Result Service Service
  handle_all [] s = ok s
  handle_all (m ∷ ms) s = handle m s >>= handle_all ms

  -- `processor.destroy()`, behind the loop.
  unfoldable pub shut_down : Service → Result Service Service
  shut_down s = elim (p.destroy s.processor) [
    | some state ↦ ok (record s { processor = state; destroyed = true })
    | none ↦ err s
  ]

  -- The async block `service`.
  unfoldable pub service : List (ReqRepMessage Req) → Service → Result Service Service
  unfolding handle_all shut_down
  service msgs s = elim (p.init s.processor) [
    | none ↦ err s
    | some state ↦ do
      s' ← handle_all msgs (record s {
        processor = state;
        metrics = record (s.metrics) { service_count = inc s.metrics.service_count };
        request_count = 0;
      })
      shut_down s'
  ]

  -- `let _ = await!(service.catch_unwind()); service_count.dec();`
  unfoldable pub uncount : Result Service Service → Service
  uncount (ok s) = record s {
    metrics = record (s.metrics) { service_count = dec s.metrics.service_count };
  }
  uncount (err s) = record s {
    metrics = record (s.metrics) { service_count = dec s.metrics.service_count };
  }

  -- The spawned task, from its start to its end.
  unfoldable pub task : List (ReqRepMessage Req) → Service → Service
  unfolding uncount
  task msgs s = uncount (service msgs s)

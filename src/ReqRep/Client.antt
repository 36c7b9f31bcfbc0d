-- ===== src/ReqRep/Client.antt =====
-- The frontend `ReqRep` of oysterpack-trust/src/concurrent/messaging/reqrep.rs, its errors in
-- messaging/errors.rs, and `ReqRepConfig`. The channels of the futures crate are parameters.
use oysterpack.Prelude.{
  ℕ, ◌+◌, ◌≡◌, refl, ap, sym, ◌∙◌, List, [], ◌∷◌, ◌++◌, some, Result, ok, err, map_err, ◌>>=◌,
  arith, length, length-append, subst, Result-cases, inl, inr,
}
use mathlib.Core.List.{append_assoc, append-nil}
use oysterpack.ReqRep.Service.{Processor, ReqRepMessage, Service, task}
use oysterpack.ReqRep.Replies.{message, messages, replies, task-replies}

-- `ChannelError`.
pub data ChannelError : Type 0 where
  sender_disconnected : ChannelError
  receiver_disconnected : ChannelError

-- `channel::mpsc::Sender`: its state, and `send` awaited; `queued` is what the receiver has yet to
-- take. As the crate documents, a message is queued last if it is sent, and not at all otherwise.
pub record Mpsc (Req : Type 0) : Type 1 where
  pub State : Type 0
  pub SendError : Type 0
  pub send : ReqRepMessage Req → State → Result (Unit {0}) SendError × State
  pub queued : State → List (ReqRepMessage Req)
  pub queued-sent :
      (m : ReqRepMessage Req) (s : State)
      → (send m s).0 ≡ ok tt
      → queued (send m s).1 ≡ queued s ++ m ∷ []
  pub queued-failed :
      (m : ReqRepMessage Req) (s : State) (e : SendError)
      → (send m s).0 ≡ err e
      → queued (send m s).1 ≡ queued s

-- `impl From<SendError>` and `impl From<Canceled>`.
unfoldable pub of_send_error : {SendError : Type 0} → SendError → ChannelError
of_send_error _ = sender_disconnected

unfoldable pub of_canceled : {Canceled : Type 0} → Canceled → ChannelError
of_canceled _ = receiver_disconnected

-- `ReplyReceiver::recv`, of what the oneshot channel ends in.
unfoldable pub recv :
    {Rep Canceled : Type 0} → (ℕ → Result Rep Canceled) → ℕ → Result Rep ChannelError
unfolding of_canceled
recv oneshot receiver = map_err of_canceled (oneshot receiver)

-- `ReqRepConfig`; `F` stands for `f64`.
pub record ReqRepConfig (F : Type 0) : Type 0 where
  pub reqrep_id : ℕ
  pub chan_buf_size : ℕ
  pub metric_timer_buckets : List F

unfoldable pub new_config : {F : Type 0} → ℕ → List F → ReqRepConfig F
new_config reqrep_id metric_timer_buckets = record {
  reqrep_id = reqrep_id;
  chan_buf_size = 0;
  metric_timer_buckets = metric_timer_buckets;
}

unfoldable pub set_chan_buf_size : {F : Type 0} → ℕ → ReqRepConfig F → ReqRepConfig F
set_chan_buf_size size c = record c { chan_buf_size = size }

module _ {Req : Type 0} (mpsc : Mpsc Req) where
  -- `ReqRep`, with its send counter; `next` names the oneshot channel that is made next.
  pub record ReqRep : Type 0 where
    pub request_sender : mpsc.State
    pub reqrep_id : ℕ
    pub request_send_counter : ℕ
    pub next : ℕ

  -- `await!(self.request_sender.send(msg))?` and what follows it.
  sent : ReqRep → Result (Unit {0}) mpsc.SendError × mpsc.State → Result ℕ ChannelError × ReqRep
  unfolding of_send_error
  sent c (ok _, sender) = (
    ok c.next,
    record c {
      request_sender = sender;
      request_send_counter = c.request_send_counter + 1;
      next = c.next + 1;
    },
  )
  sent c (err e, sender) =
      (err (of_send_error e), record c { request_sender = sender; next = c.next + 1 })

  -- `ReqRep::send`, which answers the receiver of the reply.
  unfoldable pub send : Req → ReqRep → Result ℕ ChannelError × ReqRep
  unfolding sent
  send req c = sent c (mpsc.send (record { req = some req; rep_sender = c.next }) c.request_sender)

  -- `ReqRep::send_recv`.
  unfoldable pub send_recv :
      {Rep Canceled : Type 0}
      → (ℕ → Result Rep Canceled)
      → Req
      → ReqRep
      → Result Rep ChannelError × ReqRep
  unfolding send recv
  send_recv oneshot req c = let (receiver, c') = send req c in (receiver >>= recv oneshot, c')

  -- A run of sends, with what each answered.
  abbrev pub send_all : List Req → ReqRep → List (Req × Result ℕ ChannelError) × ReqRep
  send_all [] c = ([], c)
  send_all (r ∷ rs) c =
      let (answer, c') = send r c in
      let (answers, c'') = send_all rs c' in ((r, answer) ∷ answers, c'')

  -- The requests that were sent, with their receivers.
  abbrev pub delivered : List (Req × Result ℕ ChannelError) → List (ℕ × Req)
  delivered [] = []
  delivered ((r, ok receiver) ∷ rs) = (receiver, r) ∷ delivered rs
  delivered ((r, err e) ∷ rs) = delivered rs

  -- The queue and the counter, after the requests of a list.
  abbrev pub Delivers : ReqRep → ReqRep → List (ℕ × Req) → Type 0
  Delivers c c' rs =
      (mpsc.queued c'.request_sender ≡ mpsc.queued c.request_sender ++ messages rs)
      × (c'.request_send_counter ≡ c.request_send_counter + length rs)

  send-Delivers :
      (r : Req) (c : ReqRep) → Delivers c (send r c).1 (delivered ((r, (send r c).0) ∷ []))
  unfolding send
  send-Delivers r c =
      let m : ReqRepMessage Req = record { req = some r; rep_sender = c.next } in
      elim (Result-cases (mpsc.send m c.request_sender).0) [
        | inl (_, h) ↦ rw (h, sent) (mpsc.queued-sent m c.request_sender h, omega arith)
        | inr (e, h) ↦
            rw (h, sent)
              (
                mpsc.queued-failed m c.request_sender e h
                    ∙ sym (append-nil (mpsc.queued c.request_sender)),
                omega arith,
              )
      ]

  messages-append : (rs ss : List (ℕ × Req)) → messages (rs ++ ss) ≡ messages rs ++ messages ss
  messages-append [] ss = refl
  messages-append (r ∷ rs) ss = ap (◌∷◌ (message r)) (messages-append rs ss)

  Delivers-append :
      (c c' c'' : ReqRep) (rs ss : List (ℕ × Req))
      → Delivers c c' rs
      → Delivers c' c'' ss
      → Delivers c c'' (rs ++ ss)
  Delivers-append c c' c'' rs ss (q, n) (q', n') = (
    q'
        ∙ ap (λ l. l ++ messages ss) q
        ∙ append_assoc (mpsc.queued c.request_sender) (messages rs) (messages ss)
        ∙ ap (◌++◌ (mpsc.queued c.request_sender)) (sym (messages-append rs ss)),
    omega (arith, n, n', length-append rs ss),
  )

  delivered-cons :
      (r : Req) (a : Result ℕ ChannelError) (rs : List (Req × Result ℕ ChannelError))
      → delivered ((r, a) ∷ rs) ≡ delivered ((r, a) ∷ []) ++ delivered rs
  delivered-cons r (ok n) rs = refl
  delivered-cons r (err e) rs = refl

  -- However the channel answers each send, the queue grows by the messages of the sends that
  -- succeeded, in order, each with the receiver that its caller got, and the counter by their number.
  pub send_all-Delivers :
      (rs : List Req) (c : ReqRep) → Delivers c (send_all rs c).1 (delivered (send_all rs c).0)
  send_all-Delivers [] c = (sym (append-nil (mpsc.queued c.request_sender)), omega arith)
  send_all-Delivers (r ∷ rs) c =
      let c' = (send r c).1 in
      subst (Delivers c (send_all rs c').1) (sym (delivered-cons r (send r c).0 (send_all rs c').0))
        (Delivers-append c c' (send_all rs c').1 (delivered ((r, (send r c).0) ∷ []))
          (delivered (send_all rs c').0) (send-Delivers r c) (send_all-Delivers rs c'))

  -- From the client through the channel to the service and back: over a channel that was empty, a
  -- service whose `init` succeeds and whose processor never panics replies to the receiver of each
  -- request whose send succeeded, and to no other, in the order of the sends, with the answer of
  -- the processor in the state that the requests before it left.
  pub send_all-task :
      {Rep : Type 0} (p : Processor Req Rep) (answer : p.State → Req → p.State × Rep)
      → ((st : p.State) (r : Req) → p.process st r ≡ some ((answer st r).0, ok (answer st r).1))
      → (rs : List Req) (c : ReqRep) (s : Service p) (st : p.State)
      → mpsc.queued c.request_sender ≡ []
      → p.init s.processor ≡ some st
      → s.replies ≡ []
      → let (results, c') = send_all rs c in
        (task p (mpsc.queued c'.request_sender) s).replies ≡ replies p answer st (delivered results)
  send_all-task p answer answers rs c s st empty i none =
      let (q, _) = send_all-Delivers rs c in
      let queue : mpsc.queued (send_all rs c).1.request_sender
          ≡ messages (delivered (send_all rs c).0) =
        q ∙ ap (λ l. l ++ messages (delivered (send_all rs c).0)) empty in
      ap (λ ms. (task p ms s).replies) queue
      ∙ (task-replies p answer answers (delivered (send_all rs c).0) s st i).0
      ∙ ap (λ l. l ++ replies p answer st (delivered (send_all rs c).0)) none

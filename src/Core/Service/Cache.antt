-- ===== src/Core/Service/Cache.antt =====
-- The keys that the message service keeps change nothing of what it answers.
use oysterpack.Prelude.{
  ℕ, ◌≡◌, refl, ap, ◌∙◌, Option, none, some, List, [], ◌∷◌, arith, Result, nat_eq, list_eq,
  nat_beq_iff, HashMap, get, insert, get-insert, get-remove,
}
use oysterpack.Core.Codec.{Bytes, Format}
use oysterpack.Core.Deadlines.{Clock}
use oysterpack.Core.Envelopes.{Address, Message, SealedEnvelope, MessageError, BoxCrypto}
use oysterpack.Core.Service.{
  System, MessageService, register_handler, client_disconnect, cached, precomputed_key, answer,
  handle_request,
}

module _ (system : System) (clock : Clock) (box : BoxCrypto)
    (bincode : Format (Message Bytes)) where
  -- The messages of the actor that change it.
  pub data Event : Type 0 where
    request : SealedEnvelope → Event
    register : ℕ → system.Handler → Event
    disconnect : Address → Event

  abbrev pub Reply : Type 0
  Reply = Result SealedEnvelope MessageError

  -- The actor over its mailbox, from a state of the system: the replies, in order.
  abbrev pub run : List Event → MessageService system clock box bincode → system.State → List Reply
  run [] s st = []
  run (request req ∷ es) s st =
      let (reply, s', st') = handle_request system clock box bincode req s st in
      reply ∷ run es s' st'
  run (register t h ∷ es) s st = run es (register_handler system clock box bincode t h s) st
  run (disconnect a ∷ es) s st = run es (client_disconnect system clock box bincode a s) st

  -- A service that has its handlers only, and computes the key of a request each time.
  abbrev pub run_uncached :
      (private_key : ℕ) → List Event → HashMap ℕ system.Handler → system.State → List Reply
  run_uncached p [] hs st = []
  run_uncached p (request req ∷ es) hs st =
      let (reply, st') = answer system clock box bincode (box.precompute req.sender p) hs req st in
      reply ∷ run_uncached p es hs st'
  run_uncached p (register t h ∷ es) hs st = run_uncached p es (insert t h hs) st
  run_uncached p (disconnect a ∷ es) hs st = run_uncached p es hs st

  -- Each key that is kept is the one of its client.
  abbrev pub IsValid : MessageService system clock box bincode → Type 0
  IsValid s =
      (a : Address) (k : ℕ) → get a s.precomputed_keys ≡ some k → k ≡ box.precompute a s.private_key

  -- What the cache answers and leaves.
  cached_key :
      (a : Address) (s : MessageService system clock box bincode) (o : Option ℕ)
      → get a s.precomputed_keys ≡ o
      → IsValid s
      → let (key, s') = cached system clock box bincode a s o in
        (key ≡ box.precompute a s.private_key)
        × (s'.message_handlers ≡ s.message_handlers)
        × (s'.private_key ≡ s.private_key)
        × IsValid s'
  unfolding cached
  cached_key a s (some k) e v = (v a k e, refl, refl, v)
  cached_key a s none e v = (
    refl,
    refl,
    refl,
    λ b k h. ground (
      arith,
      get-insert a b (box.precompute a s.private_key) s.precomputed_keys,
      v b k,
      nat_beq_iff a b,
    ),
  )

  -- A service whose kept keys are right, as those of a new service are, answers each of any
  -- sequence of requests, registrations and disconnects with what a service that keeps no keys and
  -- computes them anew for each request would.
  pub run-run_uncached :
      (es : List Event) (s : MessageService system clock box bincode) (st : system.State)
      → IsValid s
      → run es s st ≡ run_uncached s.private_key es s.message_handlers st
  unfolding handle_request precomputed_key register_handler client_disconnect
  run-run_uncached [] s st v = refl
  run-run_uncached (request req ∷ es) s st v =
      let (k, h, p, v') = cached_key req.sender s (get req.sender s.precomputed_keys) refl v in
      let p0 = box.precompute req.sender s.private_key in
      let found =
        cached system clock box bincode req.sender s (get req.sender s.precomputed_keys) in
      let s' = found.1 in
      let r = answer system clock box bincode found.0 s'.message_handlers req st in
      let same : r ≡ answer system clock box bincode p0 s.message_handlers req st =
        ap (λ x. answer system clock box bincode x s'.message_handlers req st) k
        ∙ ap (λ hs. answer system clock box bincode p0 hs req st) h in
      ap (◌∷◌ r.0) (
        run-run_uncached es s' r.1 v'
        ∙ ap (λ q. run_uncached q es s'.message_handlers r.1) p
        ∙ ap (λ hs. run_uncached s.private_key es hs r.1) h)
      ∙ ap
          (λ (x : Reply × system.State). x.0 ∷ run_uncached s.private_key es s.message_handlers x.1)
          same
  run-run_uncached (register t h ∷ es) s st v = run-run_uncached es _ st v
  run-run_uncached (disconnect a ∷ es) s st v =
      run-run_uncached es _ st (λ b k h. v b k (ground (arith, get-remove a b s.precomputed_keys)))

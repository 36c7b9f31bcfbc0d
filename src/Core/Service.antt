-- ===== src/Core/Service.antt =====
-- `MessageService` of oysterpack-core/src/message/service.rs. The actor system is a parameter: what
-- it answers to the delivery of a request to a handler, in a state of its own.
use oysterpack.Prelude.{
  map_err-ok, some-injective, ℕ, zero, suc, ◌+◌, ◌-◌, ◌*◌, ◌/◌, ◌%◌, ◌^◌, ◌≤◌, ◌<◌, ◌≡◌, refl, sym,
  ap, ◌∙◌, subst, ◌≢◌, ◌↔◌, ◌⊎◌, inl, inr, Bool, true, false, not, ◌&&◌, ◌||◌, Option, none, some,
  List, [], ◌∷◌, ◌++◌, map, arith, Result, ok, err, ◌>>=◌, ◌>>◌, map_err, is_ok, >>=-eq-ok,
  ok-injective, Result-cases, Outcome, returns, panics, ltb, leb, if◌then◌else◌, Bool-cases,
  Option-cases, length, is_empty, filter, any, all, All, In, first, flat_map, filter_map, All-map,
  All-In, All-of_In, List-cases, length-append, ◌==◌, Eq, nat_eq, list_eq, nat_beq_iff,
  list_beq_iff, contains, HashMap, get, insert, remove, contains_key, keys, values, get-insert,
  get-remove, contains_key-get, contains_key-is_some, contains_key-of_get, is_some,
}
use oysterpack.Core.Codec.{Bytes, Format}
use oysterpack.Core.Metadata.{Metadata, Deadline}
use oysterpack.Core.Deadlines.{Clock, timeout}
use oysterpack.Core.Envelopes.{
  Address, Message, EncodedMessage, OpenEnvelope, SealedEnvelope, MessageError, BoxCrypto,
  open_envelope, encoded_message, seal, open_sealed, unsupported_message_type,
  mailbox_delivery_error, handler_error,
}
pub mod Cache

-- The actors, the clock and the random numbers: `deliver` is what a handler (or its mailbox, in an
-- error) answers, if it may take that long; `datetime` is the time of a message's id.
pub record System : Type 1 where
  pub State : Type 0
  pub Handler : Type 0
  pub deliver :
      Handler
      → EncodedMessage
      → Option ℕ
      → State
      → Result (Result EncodedMessage ℕ) (Unit {0}) × State
  pub gen_nonce : State → ℕ × State
  pub now : State → ℕ
  pub datetime : ℕ → ℕ

module _ (system : System) (clock : Clock) (box : BoxCrypto)
    (bincode : Format (Message Bytes)) where
  pub record MessageService : Type 0 where
    pub address : Address
    pub private_key : ℕ
    pub precomputed_keys : HashMap Address ℕ
    pub message_handlers : HashMap ℕ system.Handler

  unfoldable pub new_service : Address → ℕ → MessageService
  new_service address private_key = record {
    address = address;
    private_key = private_key;
    precomputed_keys = [];
    message_handlers = [];
  }

  -- `Handler<RegisterMessageHandler>`.
  unfoldable pub register_handler : ℕ → system.Handler → MessageService → MessageService
  register_handler message_type handler s = record s {
    message_handlers = insert message_type handler s.message_handlers;
  }

  -- `Handler<GetRegisteredMessageTypes>`.
  unfoldable pub registered_message_types : MessageService → List ℕ
  registered_message_types s = keys s.message_handlers

  -- `Handler<ClientDisconnect>`.
  unfoldable pub client_disconnect : Address → MessageService → MessageService
  client_disconnect client s = record s { precomputed_keys = remove client s.precomputed_keys }

  cached : Address → MessageService → Option ℕ → ℕ × MessageService
  cached sender s (some key) = (key, s)
  cached sender s none =
      let key = box.precompute sender s.private_key in
      (key, record s { precomputed_keys = insert sender key s.precomputed_keys })

  -- `.entry(sender).or_insert_with(..).clone()`.
  unfoldable pub precomputed_key : Address → MessageService → ℕ × MessageService
  unfolding cached
  precomputed_key sender s = cached sender s (get sender s.precomputed_keys)

  -- The time that a handler may take, if the message has a deadline.
  unfoldable pub limit : Metadata → system.State → Option Deadline → Option ℕ
  limit md st none = none
  limit md st (some deadline) =
      some (timeout clock deadline (system.datetime md.instance_id) (system.now st))

  -- `result.seal(&key)`.
  sealed :
      ℕ
      → Result OpenEnvelope MessageError
      → system.State
      → Result SealedEnvelope MessageError × system.State
  sealed key (err e) st = (err e, st)
  sealed key (ok o) st = let (nonce, st') = system.gen_nonce st in (ok (seal box nonce key o), st')

  delivered :
      Address
      → ℕ
      → ℕ
      → Result (Result EncodedMessage ℕ) (Unit {0}) × system.State
      → Result SealedEnvelope MessageError × system.State
  unfolding sealed
  delivered sender message_type key (err _, st) =
      (err (mailbox_delivery_error sender message_type), st)
  delivered sender message_type key (ok (err e), st) = (err (handler_error e), st)
  delivered sender message_type key (ok (ok reply), st) =
      sealed key (open_envelope bincode reply) st

  -- `process_message`.
  unfoldable pub process_message :
      Address
      → system.Handler
      → EncodedMessage
      → ℕ
      → system.State
      → Result SealedEnvelope MessageError × system.State
  unfolding delivered limit
  process_message sender handler m key st =
      let md = m.msg.metadata in
      delivered sender md.msg_type key (system.deliver handler m (limit md st md.deadline) st)

  handled :
      Address
      → EncodedMessage
      → ℕ
      → Option system.Handler
      → system.State
      → Result SealedEnvelope MessageError × system.State
  unfolding process_message
  handled sender m key none st = (err (unsupported_message_type sender m.msg.metadata.msg_type), st)
  handled sender m key (some handler) st = process_message sender handler m key st

  opened :
      Address
      → ℕ
      → HashMap ℕ system.Handler
      → Result EncodedMessage MessageError
      → system.State
      → Result SealedEnvelope MessageError × system.State
  unfolding handled
  opened sender key handlers (err e) st = (err e, st)
  opened sender key handlers (ok m) st =
      handled sender m key (get m.msg.metadata.msg_type handlers) st

  -- `req.0.open(&key)` and what follows it.
  unfoldable pub answer :
      ℕ
      → HashMap ℕ system.Handler
      → SealedEnvelope
      → system.State
      → Result SealedEnvelope MessageError × system.State
  unfolding opened
  answer key handlers req st =
      opened req.sender key handlers (open_sealed box key req >>= encoded_message bincode) st

  -- `Handler<SealedEnvelopeRequest>`.
  unfoldable pub handle_request :
      SealedEnvelope
      → MessageService
      → system.State
      → Result SealedEnvelope MessageError × MessageService × system.State
  unfolding precomputed_key answer
  handle_request req s st =
      let (key, s') = precomputed_key req.sender s in
      let (reply, st') = answer key s'.message_handlers req st in (reply, s', st')

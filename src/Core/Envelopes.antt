-- ===== src/Core/Envelopes.antt =====
-- `Message`, `EncodedMessage`, `OpenEnvelope` and `SealedEnvelope` of
-- oysterpack-core/src/message/mod.rs. Public-key encryption (sodiumoxide), bincode and nng's messages
-- are parameters; keys, nonces and addresses are numbers.
use oysterpack.Prelude.{
  map_err-ok, some-injective, ℕ, zero, suc, ◌+◌, ◌-◌, ◌*◌, ◌/◌, ◌%◌, ◌^◌, ◌≤◌, ◌<◌, ◌≡◌, refl, sym,
  ap, ◌∙◌, subst, ◌≢◌, ◌↔◌, ◌⊎◌, inl, inr, Bool, true, false, not, ◌&&◌, ◌||◌, Option, none, some,
  List, [], ◌∷◌, ◌++◌, map, arith, Result, ok, err, ◌>>=◌, ◌>>◌, map_err, is_ok, >>=-eq-ok,
  ok-injective, Result-cases, Outcome, returns, panics, ltb, leb, if◌then◌else◌, Bool-cases,
  Option-cases, length, is_empty, filter, any, all, All, In, first, flat_map, filter_map, All-map,
  All-In, All-of_In, List-cases, length-append, ◌==◌, Eq, nat_eq, list_eq, nat_beq_iff,
  list_beq_iff, contains, HashMap, get, insert, remove, contains_key, keys, values, get-insert,
  get-remove, contains_key-get, contains_key-is_some, contains_key-of_get, is_some,
}
use oysterpack.Core.Codec.{Bytes, Compressors, Serde, Format, CodecError, encode, decode}
use oysterpack.Core.Metadata.{Metadata}
pub mod Delivery

-- `Address`, a public key.
abbrev pub Address : Type 0
Address = ℕ

pub record Addresses : Type 0 where
  pub sender : Address
  pub recipient : Address

-- `Message<T>`; `content` is its `data`.
pub record Message (T : Type 0) : Type 0 where
  pub metadata : Metadata
  pub content : T

-- `EncodedMessage`; its data are `MessageBytes`.
pub record EncodedMessage : Type 0 where
  pub sender : Address
  pub recipient : Address
  pub msg : Message Bytes

pub record OpenEnvelope : Type 0 where
  pub sender : Address
  pub recipient : Address
  pub msg : Bytes

pub record SealedEnvelope : Type 0 where
  pub sender : Address
  pub recipient : Address
  pub nonce : ℕ
  pub msg : Bytes

-- `op_error!(..)` of the functions below, without the texts of the causes.
pub data MessageError : Type 0 where
  codec : CodecError → MessageError
  encoded_message_serialization_failed : Address → MessageError
  message_data_deserialization_failed : Address → MessageError
  sealed_envelope_open_failed : SealedEnvelope → MessageError
  invalid_sealed_envelope : MessageError
  nng_message_error : MessageError
  unsupported_message_type : Address → ℕ → MessageError
  mailbox_delivery_error : Address → ℕ → MessageError
  handler_error : ℕ → MessageError

-- `crypto::box_` of sodiumoxide.
pub record BoxCrypto : Type 0 where
  pub precompute : (public_key secret_key : ℕ) → ℕ
  pub seal_precomputed : Bytes → (nonce key : ℕ) → Bytes
  pub open_precomputed : Bytes → (nonce key : ℕ) → Result Bytes (Unit {0})

-- nng's messages: `with_capacity` with a number of bytes, `push_back`, and the body.
pub record NngMessages : Type 1 where
  pub Message : Type 0
  pub Error : Type 0
  pub with_capacity : ℕ → Result Message Error
  pub push_back : Bytes → Message → Result Message Error
  pub body : Message → Bytes

-- `precompute_sealing_key` and `precompute_opening_key`.
unfoldable pub precompute_sealing_key : BoxCrypto → Address → (sender_private_key : ℕ) → ℕ
precompute_sealing_key box address key = box.precompute address key

unfoldable pub precompute_opening_key : BoxCrypto → Address → (recipient_private_key : ℕ) → ℕ
precompute_opening_key box address key = box.precompute address key

module _ (z : Compressors) {T : Type 0} (s : Serde T) where
  -- `Message::encode`.
  unfoldable pub encode_message : Message T → Result (Message Bytes) MessageError
  encode_message m = elim (encode z s m.metadata.encoding m.content) [
    | ok content ↦ ok (record { metadata = m.metadata; content = content })
    | err e ↦ err (codec e)
  ]

  -- `Message::encoded_message`.
  unfoldable pub to_encoded_message :
      Message T → Address → Address → Result EncodedMessage MessageError
  unfolding encode_message
  to_encoded_message m sender recipient = do
    msg ← encode_message m
    ok (record { sender = sender; recipient = recipient; msg = msg })

  -- `EncodedMessage::encode`.
  unfoldable pub encode_to : Addresses → Message T → Result EncodedMessage MessageError
  unfolding to_encoded_message
  encode_to addresses m = to_encoded_message m addresses.sender addresses.recipient

  -- `Message::<MessageBytes>::decode`.
  unfoldable pub decode_message : Message Bytes → Result (Message T) MessageError
  decode_message m = elim (decode z s m.metadata.encoding m.content) [
    | ok content ↦ ok (record { metadata = m.metadata; content = content })
    | err e ↦ err (codec e)
  ]

  -- `EncodedMessage::decode`.
  unfoldable pub decode_from : EncodedMessage → Result (Addresses × Message T) MessageError
  unfolding decode_message
  decode_from m = elim (decode_message m.msg) [
    | ok msg ↦ ok (record { sender = m.sender; recipient = m.recipient }, msg)
    | err e ↦ err e
  ]

-- `EncodedMessage::recipient`.
unfoldable pub recipient_of : EncodedMessage → Address
recipient_of m = m.sender

-- bincode at the type of an encoded message.
module _ (bincode : Format (Message Bytes)) where
  -- `EncodedMessage::open_envelope`.
  unfoldable pub open_envelope : EncodedMessage → Result OpenEnvelope MessageError
  open_envelope m = do
    msg ← map_err (λ _. encoded_message_serialization_failed m.sender) (bincode.serialize m.msg)
    ok (record { sender = m.sender; recipient = m.recipient; msg = msg })

  -- `OpenEnvelope::encoded_message`.
  unfoldable pub encoded_message : OpenEnvelope → Result EncodedMessage MessageError
  encoded_message o = do
    msg ← map_err (λ _. message_data_deserialization_failed o.sender) (bincode.deserialize o.msg)
    ok (record { sender = o.sender; recipient = o.recipient; msg = msg })

module _ (box : BoxCrypto) where
  -- `OpenEnvelope::seal`, given the nonce that is generated.
  unfoldable pub seal : (nonce key : ℕ) → OpenEnvelope → SealedEnvelope
  seal nonce key o = record {
    sender = o.sender;
    recipient = o.recipient;
    nonce = nonce;
    msg = box.seal_precomputed o.msg nonce key;
  }

  -- `SealedEnvelope::open`.
  unfoldable pub open_sealed : (key : ℕ) → SealedEnvelope → Result OpenEnvelope MessageError
  open_sealed key e = elim (box.open_precomputed e.msg e.nonce key) [
    | ok msg ↦ ok (record { sender = e.sender; recipient = e.recipient; msg = msg })
    | err _ ↦ err (sealed_envelope_open_failed e)
  ]

-- bincode at the type of a sealed envelope.
module _ (bincode : Format SealedEnvelope) (nng : NngMessages) where
  -- `SealedEnvelope::decode`, which `try_from_nng_message` calls.
  unfoldable pub decode_envelope : Bytes → Result SealedEnvelope MessageError
  decode_envelope bytes = map_err (λ _. invalid_sealed_envelope) (bincode.deserialize bytes)

  unfoldable pub try_from_nng_message : nng.Message → Result SealedEnvelope MessageError
  unfolding decode_envelope
  try_from_nng_message m = map_err (λ _. nng_message_error) (decode_envelope (nng.body m))

  unfoldable pub try_into_nng_message : SealedEnvelope → Result nng.Message MessageError
  try_into_nng_message e = do
    bytes ← map_err (λ _. invalid_sealed_envelope) (bincode.serialize e)
    msg ← map_err (λ _. nng_message_error) (nng.with_capacity (length bytes))
    map_err (λ _. nng_message_error) (nng.push_back bytes msg)

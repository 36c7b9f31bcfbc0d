-- ===== src/Core/Envelopes/Delivery.antt =====
-- A message that is sent arrives.
use oysterpack.Prelude.{
  map_err-ok, ℕ, ◌≡◌, refl, sym, subst, inl, inr, arith, Result, ok, ◌>>=◌, map_err, >>=-eq-ok,
  ok-injective, Result-cases, length, nat_eq, list_eq,
}
use oysterpack.Core.Codec.{
  Bytes, Compressors, Serde, Format, encode, decode-encode, IsLossless, AllReadBack, ReadsBack,
}
use oysterpack.Core.Envelopes.{
  Addresses, Message, EncodedMessage, OpenEnvelope, SealedEnvelope, MessageError, BoxCrypto,
  NngMessages, precompute_sealing_key, precompute_opening_key, encode_message, to_encoded_message,
  encode_to, decode_message, decode_from, open_envelope, encoded_message, seal, open_sealed,
  decode_envelope, try_from_nng_message, try_into_nng_message, encoded_message_serialization_failed,
  invalid_sealed_envelope, nng_message_error,
}

-- What sodiumoxide documents: the two sides of a pair of key pairs precompute one key, and what is
-- sealed with a key opens with it.
pub record IsAuthenticated (box : BoxCrypto) (public_key : ℕ → ℕ) : Type 0 where
  pub shared : (a b : ℕ) → box.precompute (public_key a) b ≡ box.precompute (public_key b) a
  pub opens :
      (m : Bytes) (nonce key : ℕ)
      → box.open_precomputed (box.seal_precomputed m nonce key) nonce key ≡ ok m

-- nng: a message that was made empty has the bytes that are pushed to it.
pub record IsEmptyAtFirst (nng : NngMessages) : Type 0 where
  pub pushed :
      (n : ℕ) (b : Bytes) (m m' : nng.Message)
      → nng.with_capacity n ≡ ok m
      → nng.push_back b m ≡ ok m'
      → nng.body m' ≡ b

open_sealed-seal :
    (box : BoxCrypto) (public_key : ℕ → ℕ)
    → IsAuthenticated box public_key
    → (o : OpenEnvelope) (nonce key : ℕ) → open_sealed box key (seal box nonce key o) ≡ ok o
unfolding open_sealed seal
open_sealed-seal box public_key auth o nonce key = rw (auth.opens o.msg nonce key, open_sealed) refl

module _ (z : Compressors) {T : Type 0} (s : Serde T) (bincode : Format (Message Bytes))
    (bincode_envelope : Format SealedEnvelope) (box : BoxCrypto) (nng : NngMessages) where
  -- What a client does to send a message, and a server with what it receives.
  abbrev pub send : Addresses → Message T → (nonce key : ℕ) → Result nng.Message MessageError
  send addresses m nonce key = do
    encoded ← encode_to z s addresses m
    opened ← open_envelope bincode encoded
    try_into_nng_message bincode_envelope nng (seal box nonce key opened)

  abbrev pub receive : (key : ℕ) → nng.Message → Result (Addresses × Message T) MessageError
  receive key m = do
    sealed ← try_from_nng_message bincode_envelope nng m
    opened ← open_sealed box key sealed
    encoded ← encoded_message bincode opened
    decode_from z s encoded

  module _ (lossless : IsLossless z) (back : AllReadBack s) (bincode_back : ReadsBack bincode)
      (envelope_back : ReadsBack bincode_envelope) (empty : IsEmptyAtFirst nng) where
    decode_message-encode_message :
        (m : Message T) (e : Message Bytes)
        → encode_message z s m ≡ ok e
        → decode_message z s e ≡ ok m
    unfolding encode_message decode_message
    decode_message-encode_message m e h =
        elim (Result-cases (encode z s m.metadata.encoding m.content)) [
          | inl (b, k) ↦
              let q = rw (k, encode_message) at h in
              let d = decode-encode z s lossless back m.metadata.encoding m.content b k in
              subst (λ e. decode_message z s e ≡ ok m) (ok-injective q)
                (rw (d, decode_message) refl)
          | inr (x, k) ↦ absurd (let q = rw (k, encode_message) at h in ground (arith, q))
        ]

    decode_from-encode_to :
        (a : Addresses) (m : Message T) (e : EncodedMessage)
        → encode_to z s a m ≡ ok e
        → decode_from z s e ≡ ok (a, m)
    unfolding encode_to to_encoded_message decode_from
    decode_from-encode_to a m e h =
        let (b, k, q) = >>=-eq-ok (encode_message z s m) _ h in
        subst (λ e. decode_from z s e ≡ ok (a, m)) (ok-injective q)
          (rw (decode_message-encode_message m b k, decode_from) refl)

    encoded_message-open_envelope :
        (e : EncodedMessage) (o : OpenEnvelope)
        → open_envelope bincode e ≡ ok o
        → encoded_message bincode o ≡ ok e
    unfolding encoded_message open_envelope
    encoded_message-open_envelope e o h =
        let (b, k, q) =
          >>=-eq-ok
            (map_err (λ _. encoded_message_serialization_failed e.sender) (bincode.serialize e.msg))
            _ h in
        rw (sym (ok-injective q))
          (rw (bincode_back e.msg b (map_err-ok _ (bincode.serialize e.msg) k)) refl)

    try_from-try_into :
        (e : SealedEnvelope) (m : nng.Message)
        → try_into_nng_message bincode_envelope nng e ≡ ok m
        → try_from_nng_message bincode_envelope nng m ≡ ok e
    unfolding try_into_nng_message try_from_nng_message decode_envelope
    try_from-try_into e m h =
        let (b, k, q) =
          >>=-eq-ok (map_err (λ _. invalid_sealed_envelope) (bincode_envelope.serialize e)) _ h in
        let (n, l, r) =
          >>=-eq-ok (map_err (λ _. nng_message_error) (nng.with_capacity (length b))) _ q in
        let body = empty.pushed (length b) b n m (map_err-ok _ _ l) (map_err-ok _ _ r) in
        rw body (rw (envelope_back e b (map_err-ok _ _ k)) refl)

    -- A message that was sent, with any encoding and compression and any nonce, and received with
    -- the recipient's opening key of the sender, arrives with its addresses: message, metadata and
    -- data are what was sent, if the crates keep what they promise.
    pub receive-send :
        (public_key : ℕ → ℕ)
        → IsAuthenticated box public_key
        → (m : Message T) (sender_key recipient_key nonce : ℕ) (wire : nng.Message)
        → let addresses : Addresses = record {
          sender = public_key sender_key;
          recipient = public_key recipient_key;
        } in
          send addresses m nonce (precompute_sealing_key box addresses.recipient sender_key)
            ≡ ok wire
          → receive (precompute_opening_key box addresses.sender recipient_key) wire
            ≡ ok (addresses, m)
    unfolding precompute_sealing_key precompute_opening_key
    receive-send public_key auth m a b nonce wire h =
        let addresses : Addresses = record { sender = public_key a; recipient = public_key b } in
        let key = box.precompute (public_key b) a in
        let (e, k, q) = >>=-eq-ok (encode_to z s addresses m) _ h in
        let (o, l, r) = >>=-eq-ok (open_envelope bincode e) _ q in
        rw (try_from-try_into (seal box nonce key o) wire r) (
          rw (auth.shared a b) (
            rw (open_sealed-seal box public_key auth o nonce key)
              (rw (encoded_message-open_envelope e o l) (decode_from-encode_to addresses m e k))))

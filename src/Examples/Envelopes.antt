-- ===== src/Examples/Envelopes.antt =====
-- Messages of the core: one that is sent, its hash, its deadline, and a service.
use oysterpack.Prelude.{
  ℕ, ◌+◌, ◌-◌, ◌*◌, ◌^◌, ◌≤◌, ◌≡◌, refl, sym, ap, ◌∙◌, ◌&&◌, none, some, List, [], ◌∷◌, ◌++◌, arith,
  ok, err, ok-injective, ltb, leb, if◌then◌else◌, ◌==◌, nat_eq, list_eq, nat_beq_iff,
}
use oysterpack.Examples.Formats.{
  plain, plain-IsLossless, bytes, bytes-AllReadBack, message_format, message_format-ReadsBack,
  envelope_format, envelope_format-ReadsBack, write_message, encoding_code, compression_code,
  option_code, deadline_code, sequence_code,
}
use oysterpack.Core.Codec.{Bytes, bincode, snappy, encode, compress, select, serialized, compressed}
use oysterpack.Core.Metadata.{processing_timeout_millis, message_timeout_millis}
use oysterpack.Core.Deadlines.{Clock, timeout}
use oysterpack.Core.Deadlines.Timeouts.{IsChrono, timeout_cases}
use oysterpack.ReqRep.Gauge.{pos, negsuc}
use oysterpack.Core.Envelopes.{
  Addresses, Message, SealedEnvelope, BoxCrypto, NngMessages, precompute_sealing_key,
  precompute_opening_key, encode_to, to_encoded_message, encode_message, open_envelope, seal,
  try_into_nng_message,
}
use oysterpack.Core.Envelopes.Delivery.{
  IsAuthenticated, IsEmptyAtFirst, send, receive, receive-send,
}
use oysterpack.Core.Hashes.{
  HashCrypto, checksum_failed, IsSodium, sign_hash, verify_hash, encrypt_hash, verify_encrypted,
  verify-sign_hash,
}
use oysterpack.Core.Service.{System, MessageService}
use oysterpack.Core.Service.Cache.{
  Event, request, register, disconnect, run, run_uncached, run-run_uncached,
}

-- A key of two is their sum, and a public key is its secret; the sealed text shows its key.
abbrev box : BoxCrypto
box = record {
  precompute = λ public secret. public + secret;
  seal_precomputed = λ m nonce key. key ∷ m;
  open_precomputed =
      λ m nonce key. elim m [ [] ↦ err tt | k ∷ ms ↦ if k == key then ok ms else err tt ];
}

abbrev own_key : ℕ → ℕ
own_key n = n

box-IsAuthenticated : IsAuthenticated box own_key
box-IsAuthenticated = record {
  shared = λ a b. omega arith;
  opens = λ m nonce key. ground (arith, nat_beq_iff key key);
}

abbrev wires : NngMessages
wires = record {
  Message = Bytes;
  Error = Unit {0};
  with_capacity = λ n. ok [];
  push_back = λ b m. ok (m ++ b);
  body = λ m. m;
}

wires-IsEmptyAtFirst : IsEmptyAtFirst wires
wires-IsEmptyAtFirst = record {
  pushed = λ n b m m' e f.
      let empty : [] ≡ m = ok-injective e in sym (ok-injective f) ∙ ap (λ l. l ++ b) (sym empty);
}

abbrev message : Message Bytes
message = record {
  metadata = record {
    msg_type = 1;
    instance_id = 2;
    encoding = bincode (some snappy);
    deadline = some (processing_timeout_millis 50);
    correlation_id = none;
    session_id = 3;
    sequence = none;
  };
  content = 104 ∷ 105 ∷ [];
}

abbrev addresses : Addresses
addresses = record { sender = 10; recipient = 20 }

-- The envelope on the wire: addresses, nonce, the key, and the message.
abbrev wire : Bytes
wire = 10 ∷ 20 ∷ 6 ∷ 30 ∷ 1 ∷ 2 ∷ 0 ∷ 4 ∷ 1 ∷ 50 ∷ 0 ∷ 0 ∷ 3 ∷ 0 ∷ 0 ∷ 104 ∷ 105 ∷ []

sent :
    send plain bytes message_format envelope_format box wires addresses message 6
      (precompute_sealing_key box 20 10)
    ≡ ok wire
unfolding encode_to to_encoded_message encode_message encode select serialized compressed compress
    open_envelope seal try_into_nng_message precompute_sealing_key write_message encoding_code
    compression_code option_code deadline_code sequence_code
sent = refl

receive-send_example :
    receive plain bytes message_format envelope_format box wires
      (precompute_opening_key box 10 20)
      wire
    ≡ ok (addresses, message)
receive-send_example =
    receive-send plain bytes message_format envelope_format box wires plain-IsLossless
      bytes-AllReadBack message_format-ReadsBack envelope_format-ReadsBack wires-IsEmptyAtFirst
      own_key box-IsAuthenticated message 10 20 6 wire sent

-- Signed and sealed texts are as they were; a hash is a text's first number.
abbrev hashes : HashCrypto
hashes = record {
  sign = λ m k. m;
  sign_verify = λ m k. ok m;
  secretbox_seal = λ m n k. m;
  secretbox_open = λ m n k. ok m;
  digest_from_slice = λ m. some m;
  hash = λ m. elim m [ [] ↦ [] | a ∷ rest ↦ a ∷ [] ];
}

hashes-IsSodium : IsSodium hashes own_key
hashes-IsSodium = record { verifies = λ m k. refl; opens = λ m n k. refl; digest = λ m. refl }

verify-sign_hash_example :
    let signed = sign_hash hashes (hashes.hash (1 ∷ 2 ∷ [])) 8 in
    (verify_hash hashes signed (3 ∷ []) 8 ≡ (
      if hashes.hash (3 ∷ []) == hashes.hash (1 ∷ 2 ∷ []) then ok tt else err (checksum_failed 8)))
    × (verify_encrypted hashes (encrypt_hash hashes 4 5 signed) 5 8 ≡ ok (hashes.hash (1 ∷ 2 ∷ [])))
verify-sign_hash_example =
    verify-sign_hash hashes own_key hashes-IsSodium (1 ∷ 2 ∷ []) (3 ∷ []) 8 4 5

-- Times end at 2^60.
abbrev clock : Clock
clock = record {
  milliseconds =
      λ d. elim d [ pos n ↦ pos (n * 1000000) | negsuc n ↦ negsuc ((n + 1) * 1000000 - 1) ];
  checked_add_signed = λ t d. elim d [
    | pos n ↦ if leb (t + n) (2 ^ 60) then some (pos (t + n)) else none
    | negsuc n ↦ none
  ];
}

clock-IsChrono : IsChrono clock (2 ^ 60)
clock-IsChrono = record {
  scaled = λ n. refl;
  negated = λ n. refl;
  later = λ t n. refl;
  earlier = λ t n d e k f. absurd (ground (arith, e));
}

timeout_cases_example :
    (timeout clock (processing_timeout_millis 500) 1000 200000000
      ≡ (if ltb 500 (2 ^ 63) then 500 * 1000000 else 0))
    × (timeout clock (message_timeout_millis 500) 1000 200000000 ≡ (
        if ltb 500 (2 ^ 63) && ltb 1000 200000000 && leb (1000 + 500 * 1000000) (2 ^ 60)
        then 1000 + 500 * 1000000 - 200000000
        else 0))
    × (timeout clock (message_timeout_millis 500) 1000 200000000 ≤ 500 * 1000000)
timeout_cases_example = timeout_cases clock (2 ^ 60) clock-IsChrono 500 1000 200000000

-- Handlers answer with the request; nonces count up.
abbrev system : System
system = record {
  State = ℕ;
  Handler = Unit {0};
  deliver = λ h m limit st. (ok (ok m), st);
  gen_nonce = λ st. (st, st + 1);
  now = λ st. 1200;
  datetime = λ id. 1000;
}

abbrev envelope : SealedEnvelope
envelope = record {
  sender = 10;
  recipient = 20;
  nonce = 6;
  msg = 30 ∷ 1 ∷ 2 ∷ 0 ∷ 4 ∷ 1 ∷ 50 ∷ 0 ∷ 0 ∷ 3 ∷ 0 ∷ 0 ∷ 104 ∷ 105 ∷ [];
}

abbrev events : List (Event system clock box message_format)
events = request envelope ∷ register 1 tt ∷ request envelope ∷ disconnect 10 ∷ request envelope ∷ []

abbrev server : MessageService system clock box message_format
server = record { address = 20; private_key = 20; precomputed_keys = []; message_handlers = [] }

run-run_uncached_example :
    run system clock box message_format events server 0
    ≡ run_uncached system clock box message_format 20 events [] 0
run-run_uncached_example =
    run-run_uncached system clock box message_format events server 0
      (λ a k e. absurd (ground (arith, e)))

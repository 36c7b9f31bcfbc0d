-- ===== src/Examples/Formats.antt =====
-- Formats and compressions that write a value down as numbers.
use oysterpack.Prelude.{
  ℕ, ◌≡◌, refl, sym, ap, subst, Option, none, some, ◌∷◌, Result, ok, err, ok-injective,
  if◌then◌else◌, ◌==◌, nat_eq, list_eq,
}
use oysterpack.Core.Codec.{
  Bytes, Compressors, IsLossless, Format, Serde, AllReadBack, ReadsBack, Compression, deflate, zlib,
  gzip, snappy, lz4, Encoding, bincode, cbor, json,
}
use oysterpack.Core.Metadata.{
  Deadline, processing_timeout_millis, message_timeout_millis, Sequence, strict, loose,
}
use oysterpack.Core.Envelopes.{Message, SealedEnvelope}

abbrev pub identity : Bytes → Result Bytes (Unit {0})
identity b = ok b

abbrev pub plain : Compressors
plain = record {
  IoError = Unit {0};
  deflate_encode = identity;
  deflate_decode = identity;
  zlib_encode = identity;
  zlib_decode = identity;
  gz_encode = identity;
  gz_decode = identity;
  snappy_compress = λ b. b;
  snappy_decompress = identity;
  lz4_encode = identity;
  lz4_decode = identity;
}

pub same_bytes : (b c : Bytes) → identity b ≡ ok c → identity c ≡ ok b
same_bytes b c e = sym e

pub plain-IsLossless : IsLossless plain
plain-IsLossless = record {
  deflate_back = same_bytes;
  zlib_back = same_bytes;
  gz_back = same_bytes;
  snappy_back = λ b. refl;
  lz4_back = same_bytes;
}

abbrev pub as_bytes : Format Bytes
as_bytes = record { Error = Unit {0}; serialize = identity; deserialize = identity }

abbrev pub bytes : Serde Bytes
bytes = record { as_bincode = as_bytes; as_cbor = as_bytes; as_json = as_bytes }

pub bytes-AllReadBack : AllReadBack bytes
bytes-AllReadBack = record {
  bincode_back = same_bytes;
  cbor_back = same_bytes;
  json_back = same_bytes;
}

-- The parts of a message's metadata as numbers, and back.
code_of : Option Compression → ℕ
code_of none = 0
code_of (some deflate) = 1
code_of (some zlib) = 2
code_of (some gzip) = 3
code_of (some snappy) = 4
code_of (some lz4) = 5

unfoldable pub compression_code : Option Compression → ℕ
unfolding code_of
compression_code c = code_of c

unfoldable pub of_code : ℕ → Option Compression
of_code n =
    if n == 1
    then some deflate
    else (if n == 2
        then some zlib
        else (if n == 3
            then some gzip
            else (if n == 4 then some snappy else (if n == 5 then some lz4 else none))))

unfoldable pub encoding_code : Encoding → ℕ × ℕ
unfolding compression_code
encoding_code (bincode c) = (0, compression_code c)
encoding_code (cbor c) = (1, compression_code c)
encoding_code (json c) = (2, compression_code c)

unfoldable pub encoding_of : ℕ × ℕ → Encoding
unfolding of_code
encoding_of (k, c) =
    if k == 0 then bincode (of_code c) else (if k == 1 then cbor (of_code c) else json (of_code c))

unfoldable pub option_code : Option ℕ → ℕ × ℕ
option_code none = (0, 0)
option_code (some n) = (1, n)

unfoldable pub option_of : ℕ × ℕ → Option ℕ
option_of (t, n) = if t == 0 then none else some n

unfoldable pub deadline_code : Option Deadline → ℕ × ℕ
deadline_code none = (0, 0)
deadline_code (some (processing_timeout_millis n)) = (1, n)
deadline_code (some (message_timeout_millis n)) = (2, n)

unfoldable pub deadline_of : ℕ × ℕ → Option Deadline
deadline_of (t, n) =
    if t == 0
    then none
    else (if t == 1 then some (processing_timeout_millis n) else some (message_timeout_millis n))

unfoldable pub sequence_code : Option Sequence → ℕ × ℕ
sequence_code none = (0, 0)
sequence_code (some (strict n)) = (1, n)
sequence_code (some (loose n)) = (2, n)

unfoldable pub sequence_of : ℕ × ℕ → Option Sequence
sequence_of (t, n) = if t == 0 then none else (if t == 1 then some (strict n) else some (loose n))

compression_back : (c : Option Compression) → of_code (compression_code c) ≡ c
unfolding of_code compression_code
compression_back none = refl
compression_back (some deflate) = refl
compression_back (some zlib) = refl
compression_back (some gzip) = refl
compression_back (some snappy) = refl
compression_back (some lz4) = refl

encoding_back : (e : Encoding) → encoding_of (encoding_code e) ≡ e
unfolding encoding_of encoding_code
encoding_back (bincode c) = ap bincode (compression_back c)
encoding_back (cbor c) = ap cbor (compression_back c)
encoding_back (json c) = ap json (compression_back c)

option_back : (o : Option ℕ) → option_of (option_code o) ≡ o
unfolding option_of option_code
option_back none = refl
option_back (some n) = refl

deadline_back : (o : Option Deadline) → deadline_of (deadline_code o) ≡ o
unfolding deadline_of deadline_code
deadline_back none = refl
deadline_back (some (processing_timeout_millis n)) = refl
deadline_back (some (message_timeout_millis n)) = refl

sequence_back : (o : Option Sequence) → sequence_of (sequence_code o) ≡ o
unfolding sequence_of sequence_code
sequence_back none = refl
sequence_back (some (strict n)) = refl
sequence_back (some (loose n)) = refl

unfoldable pub write_message : Message Bytes → Bytes
unfolding encoding_code option_code deadline_code sequence_code
write_message m =
    let md = m.metadata in
    let (k, c) = encoding_code md.encoding in
    let (dt, d) = deadline_code md.deadline in
    let (ot, o) = option_code md.correlation_id in
    let (st, s) = sequence_code md.sequence in
    md.msg_type ∷ md.instance_id ∷ k ∷ c ∷ dt ∷ d ∷ ot ∷ o ∷ md.session_id ∷ st ∷ s ∷ m.content

unfoldable pub read_message : Bytes → Result (Message Bytes) (Unit {0})
unfolding encoding_of option_of deadline_of sequence_of
read_message (t ∷ i ∷ k ∷ c ∷ dt ∷ d ∷ ot ∷ o ∷ id ∷ st ∷ s ∷ content) = ok (record {
  metadata = record {
    msg_type = t;
    instance_id = i;
    encoding = encoding_of (k, c);
    deadline = deadline_of (dt, d);
    correlation_id = option_of (ot, o);
    session_id = id;
    sequence = sequence_of (st, s);
  };
  content = content;
})
read_message _ = err tt

abbrev pub message_format : Format (Message Bytes)
message_format = record {
  Error = Unit {0};
  serialize = λ m. ok (write_message m);
  deserialize = read_message;
}

pub message_format-ReadsBack : ReadsBack message_format
unfolding write_message read_message
message_format-ReadsBack m b e =
    let p = encoding_back m.metadata.encoding in
    let q = deadline_back m.metadata.deadline in
    let r = option_back m.metadata.correlation_id in
    let s = sequence_back m.metadata.sequence in
    subst (λ b. read_message b ≡ ok m) (ok-injective e)
      (λ i. ok (record {
        metadata = record {
          msg_type = m.metadata.msg_type;
          instance_id = m.metadata.instance_id;
          encoding = p i;
          deadline = q i;
          correlation_id = r i;
          session_id = m.metadata.session_id;
          sequence = s i;
        };
        content = m.content;
      }))

unfoldable pub read_envelope : Bytes → Result SealedEnvelope (Unit {0})
read_envelope (s ∷ r ∷ n ∷ msg) = ok (record { sender = s; recipient = r; nonce = n; msg = msg })
read_envelope _ = err tt

abbrev pub envelope_format : Format SealedEnvelope
envelope_format = record {
  Error = Unit {0};
  serialize = λ (e : SealedEnvelope). ok (e.sender ∷ e.recipient ∷ e.nonce ∷ e.msg);
  deserialize = read_envelope;
}

pub envelope_format-ReadsBack : ReadsBack envelope_format
unfolding read_envelope
envelope_format-ReadsBack x b e = subst (λ b. read_envelope b ≡ ok x) (ok-injective e) refl

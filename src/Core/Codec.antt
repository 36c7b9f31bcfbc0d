-- ===== src/Core/Codec.antt =====
-- `Compression` and `Encoding` of oysterpack-core/src/message/mod.rs. The crates that compress and
-- serialize are parameters; bytes are numbers.
use oysterpack.Prelude.{
  map_err-ok, ℕ, ◌≡◌, refl, sym, subst, Option, none, some, List, Result, ok, ◌>>=◌, map_err,
  >>=-eq-ok, ok-injective, nat_eq, list_eq,
}

abbrev pub Bytes : Type 0
Bytes = List ℕ

pub data Compression : Type 0 where
  deflate : Compression
  zlib : Compression
  gzip : Compression
  snappy : Compression
  lz4 : Compression

-- The crates flate2, parity_snappy and lz4: a reader that reads to its end, or a call.
pub record Compressors : Type 1 where
  pub IoError : Type 0
  pub deflate_encode : Bytes → Result Bytes IoError
  pub deflate_decode : Bytes → Result Bytes IoError
  pub zlib_encode : Bytes → Result Bytes IoError
  pub zlib_decode : Bytes → Result Bytes IoError
  pub gz_encode : Bytes → Result Bytes IoError
  pub gz_decode : Bytes → Result Bytes IoError
  pub snappy_compress : Bytes → Bytes
  pub snappy_decompress : Bytes → Result Bytes IoError
  pub lz4_encode : Bytes → Result Bytes IoError
  pub lz4_decode : Bytes → Result Bytes IoError

module _ (z : Compressors) where
  unfoldable pub compress : Compression → Bytes → Result Bytes z.IoError
  compress deflate bytes = z.deflate_encode bytes
  compress zlib bytes = z.zlib_encode bytes
  compress gzip bytes = z.gz_encode bytes
  compress snappy bytes = ok (z.snappy_compress bytes)
  compress lz4 bytes = z.lz4_encode bytes

  unfoldable pub decompress : Compression → Bytes → Result Bytes z.IoError
  decompress deflate bytes = z.deflate_decode bytes
  decompress zlib bytes = z.zlib_decode bytes
  decompress gzip bytes = z.gz_decode bytes
  decompress snappy bytes = z.snappy_decompress bytes
  decompress lz4 bytes = z.lz4_decode bytes

-- What each of the crates promises: data that it has compressed reads back.
pub record IsLossless (z : Compressors) : Type 0 where
  pub deflate_back : (b c : Bytes) → z.deflate_encode b ≡ ok c → z.deflate_decode c ≡ ok b
  pub zlib_back : (b c : Bytes) → z.zlib_encode b ≡ ok c → z.zlib_decode c ≡ ok b
  pub gz_back : (b c : Bytes) → z.gz_encode b ≡ ok c → z.gz_decode c ≡ ok b
  pub snappy_back : (b : Bytes) → z.snappy_decompress (z.snappy_compress b) ≡ ok b
  pub lz4_back : (b c : Bytes) → z.lz4_encode b ≡ ok c → z.lz4_decode c ≡ ok b

pub decompress-compress :
    (z : Compressors)
    → IsLossless z
    → (c : Compression) (b d : Bytes) → compress z c b ≡ ok d
    → decompress z c d ≡ ok b
unfolding compress decompress
decompress-compress z l deflate b d e = l.deflate_back b d e
decompress-compress z l zlib b d e = l.zlib_back b d e
decompress-compress z l gzip b d e = l.gz_back b d e
decompress-compress z l snappy b d e =
    subst (λ d. z.snappy_decompress d ≡ ok b) (ok-injective e) (l.snappy_back b)
decompress-compress z l lz4 b d e = l.lz4_back b d e

pub data Encoding : Type 0 where
  bincode : Option Compression → Encoding
  cbor : Option Compression → Encoding
  json : Option Compression → Encoding

-- A serde format at one type: `serialize` and `deserialize` of the crates bincode, serde_cbor and
-- serde_json.
pub record Format (T : Type 0) : Type 1 where
  pub Error : Type 0
  pub serialize : T → Result Bytes Error
  pub deserialize : Bytes → Result T Error

abbrev pub ReadsBack : {T : Type 0} → Format T → Type 0
ReadsBack {T} f = (x : T) (b : Bytes) → f.serialize x ≡ ok b → f.deserialize b ≡ ok x

-- A type with its three formats.
pub record Serde (T : Type 0) : Type 1 where
  pub as_bincode : Format T
  pub as_cbor : Format T
  pub as_json : Format T

pub record AllReadBack {T : Type 0} (s : Serde T) : Type 0 where
  pub bincode_back : ReadsBack s.as_bincode
  pub cbor_back : ReadsBack s.as_cbor
  pub json_back : ReadsBack s.as_json

-- `SerializationError` and `DeserializationError`, with the encoding; the text of the cause is not
-- kept.
pub data CodecError : Type 0 where
  serialization_error : Encoding → CodecError
  deserialization_error : Encoding → CodecError

module _ (z : Compressors) {T : Type 0} (s : Serde T) where
  -- `serialize(&data).map_err(..)?`, with the compression that follows it.
  unfoldable pub serialized :
      Encoding → Format T → Option Compression → T → Result (Bytes × Option Compression) CodecError
  serialized self f compression x = do
    bytes ← map_err (λ _. serialization_error self) (f.serialize x)
    ok (bytes, compression)

  unfoldable pub compressed : Encoding → Bytes × Option Compression → Result Bytes CodecError
  compressed self (bytes, none) = ok bytes
  compressed self (bytes, some c) = map_err (λ _. serialization_error self) (compress z c bytes)

  -- The match of `Encoding::encode`.
  unfoldable pub select : Encoding → T → Result (Bytes × Option Compression) CodecError
  unfolding serialized
  select (bincode c) x = serialized (bincode c) s.as_bincode c x
  select (cbor c) x = serialized (cbor c) s.as_cbor c x
  select (json c) x = serialized (json c) s.as_json c x

  -- `Encoding::encode`.
  unfoldable pub encode : Encoding → T → Result Bytes CodecError
  unfolding select compressed
  encode self x = do data_and_compression ← select self x; compressed self data_and_compression

  -- An arm of `Encoding::decode`.
  decoded : Encoding → Format T → Option Compression → Bytes → Result T CodecError
  decoded self f none bytes = map_err (λ _. deserialization_error self) (f.deserialize bytes)
  decoded self f (some c) bytes = do
    plain ← map_err (λ _. deserialization_error self) (decompress z c bytes)
    map_err (λ _. deserialization_error self) (f.deserialize plain)

  -- `Encoding::decode`.
  unfoldable pub decode : Encoding → Bytes → Result T CodecError
  unfolding decoded
  decode (bincode c) bytes = decoded (bincode c) s.as_bincode c bytes
  decode (cbor c) bytes = decoded (cbor c) s.as_cbor c bytes
  decode (json c) bytes = decoded (json c) s.as_json c bytes

  module _ (lossless : IsLossless z) (back : AllReadBack s) where
    -- An arm of `encode` and the arm of `decode` that fits it.
    decoded-compressed :
        (self : Encoding) (f : Format T)
        → ReadsBack f
        → (c : Option Compression) (x : T) (b : Bytes)
        → (serialized self f c x >>= compressed self) ≡ ok b
        → decoded self f c b ≡ ok x
    unfolding serialized compressed decoded
    decoded-compressed self f r c x b h =
        let (p, e, k) = >>=-eq-ok (serialized self f c x) (compressed self) h in
        let (d, g, q) = >>=-eq-ok (map_err (λ _. serialization_error self) (f.serialize x)) _ e in
        let plain : f.deserialize d ≡ ok x = r x d (map_err-ok _ (f.serialize x) g) in
        go c d plain (subst (λ p. compressed self p ≡ ok b) (sym (ok-injective q)) k)
      where
        go :
            (c : Option Compression) (d : Bytes)
            → f.deserialize d ≡ ok x
            → compressed self (d, c) ≡ ok b
            → decoded self f c b ≡ ok x
        go none d plain k = rw (sym (ok-injective k)) (rw plain refl)
        go (some c) d plain k =
            let back : decompress z c b ≡ ok d =
              decompress-compress z lossless c d b (map_err-ok _ (compress z c d) k) in
            rw back (rw plain refl)

    -- What `Encoding::encode` has encoded, in each of the three formats and with each of the five
    -- compressions or none, `Encoding::decode` of that encoding decodes to the value.
    pub decode-encode : (e : Encoding) (x : T) (b : Bytes) → encode e x ≡ ok b → decode e b ≡ ok x
    unfolding encode decode select
    decode-encode (bincode c) x b h =
        decoded-compressed (bincode c) s.as_bincode back.bincode_back c x b h
    decode-encode (cbor c) x b h = decoded-compressed (cbor c) s.as_cbor back.cbor_back c x b h
    decode-encode (json c) x b h = decoded-compressed (json c) s.as_json back.json_back c x b h

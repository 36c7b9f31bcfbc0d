-- ===== src/Core/Hashes.antt =====
-- `SignedHash` and `EncryptedSignedHash` of oysterpack-core/src/message/mod.rs. Hashing, signing and
-- secret-key encryption (sodiumoxide) are parameters; keys and nonces are numbers.
use oysterpack.Prelude.{
  ℕ, ◌≡◌, refl, Option, none, some, Result, ok, err, ◌>>=◌, map_err, if◌then◌else◌, length, ◌==◌,
  nat_eq, list_eq,
}
use oysterpack.Core.Codec.{Bytes}

-- `crypto::sign`, `crypto::secretbox` and `crypto::hash` of sodiumoxide. A digest is its bytes.
pub record HashCrypto : Type 0 where
  pub sign : Bytes → (secret_key : ℕ) → Bytes
  pub sign_verify : Bytes → (public_key : ℕ) → Result Bytes (Unit {0})
  pub secretbox_seal : Bytes → (nonce key : ℕ) → Bytes
  pub secretbox_open : Bytes → (nonce key : ℕ) → Result Bytes (Unit {0})
  pub digest_from_slice : Bytes → Option Bytes
  pub hash : Bytes → Bytes

pub data HashError : Type 0 where
  invalid_signature : ℕ → HashError
  invalid_digest_length : ℕ → ℕ → HashError
  checksum_failed : ℕ → HashError
  decryption_failed : ℕ → HashError

-- `SignedHash`: its bytes.
abbrev pub SignedHash : Type 0
SignedHash = Bytes

pub record EncryptedSignedHash : Type 0 where
  pub bytes : Bytes
  pub nonce : ℕ

module _ (crypto : HashCrypto) where
  -- `SignedHash::sign`.
  unfoldable pub sign_hash : (digest : Bytes) → (secret_key : ℕ) → SignedHash
  sign_hash digest key = crypto.sign digest key

  compared : ℕ → Bytes → Bytes → Option Bytes → Result (Unit {0}) HashError
  compared key msg bytes none = err (invalid_digest_length key (length bytes))
  compared key msg bytes (some digest) =
      if crypto.hash msg == digest then ok tt else err (checksum_failed key)

  -- `SignedHash::verify`.
  unfoldable pub verify_hash :
      SignedHash → (msg : Bytes) → (public_key : ℕ) → Result (Unit {0}) HashError
  unfolding compared
  verify_hash signed msg key = do
    digest ← map_err (λ _. invalid_signature key) (crypto.sign_verify signed key)
    compared key msg digest (crypto.digest_from_slice digest)

  -- `SignedHash::encrypt`, given the nonce that is generated.
  unfoldable pub encrypt_hash : (nonce : ℕ) → (key : ℕ) → SignedHash → EncryptedSignedHash
  encrypt_hash nonce key signed = record {
    bytes = crypto.secretbox_seal signed nonce key;
    nonce = nonce;
  }

  digest_of : ℕ → Bytes → Option Bytes → Result Bytes HashError
  digest_of key bytes none = err (invalid_digest_length key (length bytes))
  digest_of key bytes (some digest) = ok digest

  verified : ℕ → Result Bytes (Unit {0}) → Result Bytes HashError
  unfolding digest_of
  verified key (err _) = err (invalid_signature key)
  verified key (ok digest) = digest_of key digest (crypto.digest_from_slice digest)

  decrypted : ℕ → Result Bytes (Unit {0}) → Result Bytes HashError
  unfolding verified
  decrypted public_key (err _) = err (decryption_failed public_key)
  decrypted public_key (ok signed) = verified public_key (crypto.sign_verify signed public_key)

  -- `EncryptedSignedHash::verify`.
  unfoldable pub verify_encrypted :
      EncryptedSignedHash → (key : ℕ) → (public_key : ℕ) → Result Bytes HashError
  unfolding decrypted
  verify_encrypted e key public_key =
      decrypted public_key (crypto.secretbox_open e.bytes e.nonce key)

-- What sodiumoxide documents: a signature verifies with the public key of the secret key, and what
-- was sealed opens; a digest has the length of digests.
pub record IsSodium (crypto : HashCrypto) (public_key : ℕ → ℕ) : Type 0 where
  pub verifies : (m : Bytes) (k : ℕ) → crypto.sign_verify (crypto.sign m k) (public_key k) ≡ ok m
  pub opens :
      (m : Bytes) (nonce key : ℕ)
      → crypto.secretbox_open (crypto.secretbox_seal m nonce key) nonce key ≡ ok m
  pub digest : (m : Bytes) → crypto.digest_from_slice (crypto.hash m) ≡ some (crypto.hash m)

module _ (crypto : HashCrypto) (public_key : ℕ → ℕ) (sodium : IsSodium crypto public_key) where
  -- The hash of a message, signed: verified with the signer's public key, it is accepted for another
  -- message exactly when that has the same hash, and is a failed checksum otherwise; encrypted with
  -- any nonce and decrypted with the key, it verifies and is the hash of the message.
  pub verify-sign_hash :
      (msg other : Bytes) (secret_key nonce key : ℕ)
      → let signed = sign_hash crypto (crypto.hash msg) secret_key in
        (verify_hash crypto signed other (public_key secret_key) ≡ (
          if crypto.hash other == crypto.hash msg
          then ok tt
          else err (checksum_failed (public_key secret_key))))
        × (verify_encrypted crypto
              (encrypt_hash crypto nonce key signed)
              key
              (public_key secret_key)
            ≡ ok (crypto.hash msg))
  unfolding sign_hash verify_hash compared encrypt_hash verify_encrypted decrypted verified
      digest_of
  verify-sign_hash msg other secret_key nonce key =
      let v = sodium.verifies (crypto.hash msg) secret_key in
      (
        rw v (rw (sodium.digest msg) refl),
        rw (sodium.opens (crypto.sign (crypto.hash msg) secret_key) nonce key)
            (rw v (rw (sodium.digest msg) refl)),
      )

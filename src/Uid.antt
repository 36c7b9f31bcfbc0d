-- ===== src/Uid.antt =====
-- `ULID` of oysterpack-uid/src/ulid/mod.rs as bytes. A ULID is its 128-bit number; the crates
-- rusty_ulid and byteorder are parameters.
use oysterpack.Prelude.{
  ℕ, ◌≡◌, refl, sym, ◌∙◌, List, [], ◌∷◌, ◌++◌, arith, Result, ok, err, ltb, if◌then◌else◌, length,
  length-append, ◌==◌, nat_eq, list_eq,
}

abbrev pub Bytes : Type 0
Bytes = List ℕ

-- `Into<(u64, u64)>`, `From<[u8; 16]>`, `generate` and `increment` of rusty_ulid, and the bytes that
-- byteorder writes for a `u64`.
pub record Ulids : Type 0 where
  pub halves : ℕ → ℕ × ℕ
  pub from_array : Bytes → ℕ
  pub generate : ℕ
  pub increment : ℕ → ℕ
  pub write_u64 : ℕ → Bytes

pub data DecodingError : Type 0 where
  invalid_length : DecodingError

module _ (u : Ulids) where
  unfoldable pub to_bytes : ℕ → Bytes
  to_bytes id = let (left, right) = u.halves id in u.write_u64 left ++ u.write_u64 right

  unfoldable pub try_from_bytes : Bytes → Result ℕ DecodingError
  try_from_bytes bytes = if length bytes == 16 then ok (u.from_array bytes) else err invalid_length

  -- `ULID::increment`.
  unfoldable pub increment_id : ℕ → ℕ
  increment_id prev = let ulid = u.increment prev in if ltb ulid prev then u.generate else ulid

-- Eight bytes for each half, and different ones for different numbers.
pub record IsFaithful (u : Ulids) : Type 0 where
  pub halves_differ : (a b : ℕ) → u.halves a ≡ u.halves b → a ≡ b
  pub eight_bytes : (n : ℕ) → length (u.write_u64 n) ≡ 8
  pub bytes_differ : (a b : ℕ) → u.write_u64 a ≡ u.write_u64 b → a ≡ b

-- Two texts of the same parts are the same at each, if the first parts are as long.
pub append-injective : (a b c d : Bytes) → length a ≡ length b → a ++ c ≡ b ++ d → (a ≡ b) × (c ≡ d)
append-injective [] [] c d h e = (refl, e)
append-injective [] (y ∷ b) c d h e = absurd (omega (arith, h))
append-injective (x ∷ a) [] c d h e = absurd (omega (arith, h))
append-injective (x ∷ a) (y ∷ b) c d h e =
    let (p, q) = append-injective a b c d (omega (arith, h)) (ground (arith, e)) in
    let same : x ≡ y = ground (arith, e) in (cc, q)

module _ (u : Ulids) (faithful : IsFaithful u) where
  pub length-to_bytes : (id : ℕ) → length (to_bytes u id) ≡ 16
  unfolding to_bytes
  length-to_bytes id =
      let (l, r) = u.halves id in
      omega (
        arith,
        length-append (u.write_u64 l) (u.write_u64 r),
        faithful.eight_bytes l,
        faithful.eight_bytes r,
      )

  pub to_bytes-injective : (a b : ℕ) → to_bytes u a ≡ to_bytes u b → a ≡ b
  unfolding to_bytes
  to_bytes-injective a b e =
      let (p, q) =
        append-injective (u.write_u64 (u.halves a).0) (u.write_u64 (u.halves b).0)
          (u.write_u64 (u.halves a).1) (u.write_u64 (u.halves b).1)
          (faithful.eight_bytes (u.halves a).0 ∙ sym (faithful.eight_bytes (u.halves b).0)) e in
      let l = faithful.bytes_differ (u.halves a).0 (u.halves b).0 p in
      let r = faithful.bytes_differ (u.halves a).1 (u.halves b).1 q in
      faithful.halves_differ a b (λ i. (l i, r i))

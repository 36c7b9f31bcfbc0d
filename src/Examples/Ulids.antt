-- ===== src/Examples/Ulids.antt =====
-- A text codec for ids of 128 bits, with 26 digits of base 32, the lowest first.
use oysterpack.Prelude.{
  ℕ, zero, suc, ◌+◌, ◌-◌, ◌*◌, ◌/◌, ◌%◌, ◌<◌, ◌≡◌, refl, [], ◌∷◌, ok, err, ◌==◌, nat_eq,
  if◌then◌else◌, arith,
}
use oysterpack.Text.{Str, str_len}
use oysterpack.Metrics.Ids.Codec.{RustyUlid, CrockfordError}

abbrev pub digits : ℕ → ℕ → Str
digits zero id = []
digits (suc n) id = (48 + id % 32) ∷ digits n (id / 32)

abbrev pub value : Str → ℕ
value [] = 0
value (c ∷ s) = (c - 48) + 32 * value s

abbrev pub below : ℕ → ℕ
below zero = 1
below (suc n) = 32 * below n

pub str_len-digits : (n id : ℕ) → str_len (digits n id) ≡ n
str_len-digits zero id = refl
str_len-digits (suc n) id = ground (arith, str_len-digits n (id / 32))

pub value-digits : (n id : ℕ) → id < below n → value (digits n id) ≡ id
value-digits zero id h = omega arith
value-digits (suc n) id h = omega (arith, value-digits n (id / 32) (omega arith))

abbrev pub base32 : RustyUlid
base32 = record {
  to_string = λ id. digits 26 id;
  parse = λ s. if str_len s == 26 then ok (value s) else err CrockfordError.invalid_length;
  to_string_len = λ id h. str_len-digits 26 id;
  parse-to_string = λ id h. ground (arith, str_len-digits 26 id, value-digits 26 id (omega arith));
}

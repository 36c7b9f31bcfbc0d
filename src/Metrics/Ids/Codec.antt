-- ===== src/Metrics/Ids/Codec.antt =====
-- oysterpack-uid/src/ulid/mod.rs: text to ULID and back. The crate rusty_ulid is a parameter.
use oysterpack.Prelude.{ℕ, ◌^◌, ◌<◌, ◌≡◌, Result, ok, map_err}
use oysterpack.Text.{Str, str_len}

-- `rusty_ulid::crockford::DecodingError`.
pub data CrockfordError : Type 0 where
  invalid_length : CrockfordError
  invalid_char : ℕ → CrockfordError
  data_type_overflow : CrockfordError

-- The crate's `Ulid::from(u128).to_string()` and `Ulid::from_str`, and what its documentation says
-- of them: the text has 26 ASCII characters and reads back.
pub record RustyUlid : Type 0 where
  pub to_string : ℕ → Str
  pub parse : Str → Result ℕ CrockfordError
  pub to_string_len : (id : ℕ) → id < 2 ^ 128 → str_len (to_string id) ≡ 26
  pub parse-to_string : (id : ℕ) → id < 2 ^ 128 → parse (to_string id) ≡ ok id

pub data DecodingError : Type 0 where
  invalid_length : DecodingError
  invalid_char : ℕ → DecodingError
  data_type_overflow : DecodingError

-- `impl From<rusty_ulid::crockford::DecodingError> for DecodingError`.
unfoldable pub from_crockford : CrockfordError → DecodingError
from_crockford CrockfordError.invalid_length = DecodingError.invalid_length
from_crockford (CrockfordError.invalid_char c) = DecodingError.invalid_char c
from_crockford CrockfordError.data_type_overflow = DecodingError.data_type_overflow

module _ (ulids : RustyUlid) where
  unfoldable pub ulid_u128_into_string : ℕ → Str
  ulid_u128_into_string id = ulids.to_string id

  -- `ULID::from_str`.
  unfoldable pub ulid_from_str : Str → Result ℕ DecodingError
  unfolding from_crockford
  ulid_from_str s = map_err from_crockford (ulids.parse s)

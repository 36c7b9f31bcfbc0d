-- ===== src/Metrics/Ids/MetricId.antt =====
-- `MetricId` of oysterpack-trust/src/metrics.rs.
use oysterpack.Prelude.{
  ℕ, [], ◌∷◌, ◌==◌, nat_eq, if◌then◌else◌, not, Result, err, Outcome, returns, panics,
}
use oysterpack.Text.{Str, str_len, starts_with}
use oysterpack.Metrics.Ids.Codec.{RustyUlid, DecodingError, ulid_u128_into_string, ulid_from_str}

module _ (ulids : RustyUlid) where
  -- `name`, which is `to_string`.
  unfoldable pub name : ℕ → Str
  unfolding ulid_u128_into_string
  name id = b'M' ∷ ulid_u128_into_string ulids id

  -- `&s[1..]`, parsed. The source would panic on the empty string.
  parse_tail : Str → Outcome (Result ℕ DecodingError)
  unfolding ulid_from_str
  parse_tail [] = panics
  parse_tail (c ∷ s) = returns (ulid_from_str ulids s)

  -- `s.chars().next().unwrap()`, as the error.
  unexpected_char : Str → Outcome (Result ℕ DecodingError)
  unexpected_char [] = panics
  unexpected_char (c ∷ s) = returns (err (DecodingError.invalid_char c))

  unfoldable pub from_str : Str → Outcome (Result ℕ DecodingError)
  unfolding parse_tail unexpected_char
  from_str s =
      if not (str_len s == 27)
      then returns (err DecodingError.invalid_length)
      else if starts_with b'M' s
      then parse_tail s
      else unexpected_char s

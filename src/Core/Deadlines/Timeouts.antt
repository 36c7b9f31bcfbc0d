-- ===== src/Core/Deadlines/Timeouts.antt =====
-- How long a handler of the message service is given.
use oysterpack.Prelude.{
  ◌*◌, ℕ, ◌+◌, ◌-◌, ◌^◌, ◌≤◌, ◌<◌, ◌≡◌, refl, inl, inr, ◌&&◌, none, some, arith, ltb, leb,
  if◌then◌else◌, Bool-cases, Option-cases, nat_eq, list_eq,
}
use oysterpack.ReqRep.Gauge.{ℤ, pos, negsuc}
use oysterpack.Core.Metadata.{processing_timeout_millis, message_timeout_millis}
use oysterpack.Core.Deadlines.{Clock, as_i64, until, remaining, duration, to_std_or_zero, timeout}

-- A millisecond is 10^6 nanoseconds. Below chrono's last time a sum that is answered is the sum, and
-- one with a negative duration is earlier.
pub record IsChrono (c : Clock) (last : ℕ) : Type 0 where
  pub scaled : (n : ℕ) → c.milliseconds (pos n) ≡ pos (n * 1000000)
  pub negated : (n : ℕ) → c.milliseconds (negsuc n) ≡ negsuc ((n + 1) * 1000000 - 1)
  pub later :
      (t n : ℕ)
      → c.checked_add_signed t (pos n) ≡ (if leb (t + n) last then some (pos (t + n)) else none)
  pub earlier :
      (t n : ℕ) (d : ℤ) → c.checked_add_signed t (negsuc n) ≡ some d → (k : ℕ) → d ≡ pos k → k < t

module _ (c : Clock) (last : ℕ) (chrono : IsChrono c last) where
  -- A deadline before the timestamp has passed.
  to_std_or_zero-until :
      (d : ℤ) (t now : ℕ)
      → t < now
      → ((k : ℕ) → d ≡ pos k → k < t)
      → to_std_or_zero (until now d) ≡ 0
  unfolding until to_std_or_zero
  to_std_or_zero-until (pos k) t now h before = ground (arith, before k refl)
  to_std_or_zero-until (negsuc k) t now h before = refl

  passed :
      (t m now : ℕ)
      → t < now
      → to_std_or_zero (remaining now (c.checked_add_signed t (negsuc m))) ≡ 0
  unfolding remaining to_std_or_zero
  passed t m now h = elim (Option-cases (c.checked_add_signed t (negsuc m))) [
    | inl e ↦ rw e refl
    | inr (d, e) ↦ rw e (to_std_or_zero-until d t now h (chrono.earlier t m d e))
  ]

  message_timeout :
      (n timestamp now : ℕ)
      → timeout c (message_timeout_millis n) timestamp now ≡ (
          if ltb n (2 ^ 63) && ltb timestamp now && leb (timestamp + n * 1000000) last
          then timestamp + n * 1000000 - now
          else 0)
  unfolding timeout duration as_i64 to_std_or_zero remaining until
  message_timeout n timestamp now = elim (Bool-cases (ltb n (2 ^ 63))) [
    | inl k ↦ rw (k, chrono.scaled n) (ground (arith, chrono.later timestamp (n * 1000000)))
    | inr k ↦
        rw (k, chrono.negated (2 ^ 64 - n - 1))
          (ground (arith, passed timestamp ((2 ^ 64 - n - 1 + 1) * 1000000 - 1) now))
  ]

  in_full :
      (n timestamp now : ℕ)
      → timeout c (processing_timeout_millis n) timestamp now
        ≡ (if ltb n (2 ^ 63) then n * 1000000 else 0)
  unfolding timeout duration as_i64 to_std_or_zero
  in_full n timestamp now = elim (Bool-cases (ltb n (2 ^ 63))) [
    | inl k ↦ ground (arith, k, chrono.scaled n)
    | inr k ↦ ground (arith, k, chrono.negated (2 ^ 64 - n - 1))
  ]

  -- In nanoseconds, for n milliseconds: a processing timeout below 2^63 is given in full, and a longer one not at all. A message timeout
  -- below 2^63 is what is left of it since the message's timestamp, and so at most the timeout; but
  -- nothing is given to a message whose timestamp is the present or lies ahead, nor to one whose
  -- deadline is beyond chrono's last time, nor for a timeout of 2^63 or more.
  pub timeout_cases :
      (n timestamp now : ℕ)
      → (timeout c (processing_timeout_millis n) timestamp now
          ≡ (if ltb n (2 ^ 63) then n * 1000000 else 0))
        × (timeout c (message_timeout_millis n) timestamp now ≡ (
            if ltb n (2 ^ 63) && ltb timestamp now && leb (timestamp + n * 1000000) last
            then timestamp + n * 1000000 - now
            else 0))
        × (timeout c (message_timeout_millis n) timestamp now ≤ n * 1000000)
  unfolding timeout duration as_i64 to_std_or_zero
  timeout_cases n timestamp now =
      let m = message_timeout n timestamp now in (in_full n timestamp now, m, ground (arith, m))

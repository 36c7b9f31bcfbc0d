-- ===== src/Core/Deadlines.antt =====
-- `Deadline::duration` of oysterpack-core/src/message/mod.rs, and what the message service makes of it
-- (oysterpack-core/src/message/service.rs). Times are nanoseconds since the epoch.
use oysterpack.Prelude.{
  map_err-ok, some-injective, ℕ, zero, suc, ◌+◌, ◌-◌, ◌*◌, ◌/◌, ◌%◌, ◌^◌, ◌≤◌, ◌<◌, ◌≡◌, refl, sym,
  ap, ◌∙◌, subst, ◌≢◌, ◌↔◌, ◌⊎◌, inl, inr, Bool, true, false, not, ◌&&◌, ◌||◌, Option, none, some,
  List, [], ◌∷◌, ◌++◌, map, arith, Result, ok, err, ◌>>=◌, ◌>>◌, map_err, is_ok, >>=-eq-ok,
  ok-injective, Result-cases, Outcome, returns, panics, ltb, leb, if◌then◌else◌, Bool-cases,
  Option-cases, length, is_empty, filter, any, all, All, In, first, flat_map, filter_map, All-map,
  All-In, All-of_In, List-cases, length-append, ◌==◌, Eq, nat_eq, list_eq, nat_beq_iff,
  list_beq_iff, contains, HashMap, get, insert, remove, contains_key, keys, values, get-insert,
  get-remove, contains_key-get, contains_key-is_some, contains_key-of_get, is_some,
}
use oysterpack.ReqRep.Gauge.{ℤ, pos, negsuc}
use oysterpack.Core.Metadata.{Deadline, processing_timeout_millis, message_timeout_millis}
pub mod Timeouts

-- `millis as i64`.
unfoldable pub as_i64 : ℕ → ℤ
as_i64 millis = if ltb millis (2 ^ 63) then pos millis else negsuc (2 ^ 64 - millis - 1)

-- What is called of the crate chrono, its durations in nanoseconds: `Duration::milliseconds`, and
-- `DateTime::checked_add_signed`, which is `none` out of chrono's range.
pub record Clock : Type 0 where
  pub milliseconds : ℤ → ℤ
  pub checked_add_signed : ℕ → ℤ → Option ℤ

-- `deadline.signed_duration_since(now)`, or zero if `now >= deadline`.
unfoldable pub until : ℕ → ℤ → ℤ
until now (pos deadline) = if leb deadline now then pos 0 else pos (deadline - now)
until now (negsuc n) = pos 0

remaining : ℕ → Option ℤ → ℤ
unfolding until
remaining now none = pos 0
remaining now (some deadline) = until now deadline

-- `Deadline::duration`, given the time that `Utc::now()` answers.
unfoldable pub duration : Clock → Deadline → (starting_time now : ℕ) → ℤ
unfolding as_i64 remaining
duration clock (processing_timeout_millis millis) starting_time now =
    clock.milliseconds (as_i64 millis)
duration clock (message_timeout_millis millis) starting_time now =
    if leb now starting_time
    then pos 0
    else remaining now (clock.checked_add_signed starting_time (clock.milliseconds (as_i64 millis)))

-- `.to_std().or(Ok(Duration::from_millis(0))).unwrap()`.
unfoldable pub to_std_or_zero : ℤ → ℕ
to_std_or_zero (pos n) = n
to_std_or_zero (negsuc n) = 0

-- The time that `process_message` gives a handler.
unfoldable pub timeout : Clock → Deadline → (timestamp now : ℕ) → ℕ
unfolding duration to_std_or_zero
timeout clock deadline timestamp now = to_std_or_zero (duration clock deadline timestamp now)

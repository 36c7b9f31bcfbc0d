-- ===== src/Core/Metadata.antt =====
-- `Metadata`, its ids and `Sequence` of oysterpack-core/src/message/mod.rs. An id is the number of
-- its ULID; new ones are given to the constructor.
use oysterpack.Prelude.{ℕ, ◌+◌, ◌%◌, ◌^◌, Option, none, some, nat_eq, list_eq}
use oysterpack.Core.Codec.{Encoding}

pub data Deadline : Type 0 where
  processing_timeout_millis : ℕ → Deadline
  message_timeout_millis : ℕ → Deadline

pub data Sequence : Type 0 where
  strict : ℕ → Sequence
  loose : ℕ → Sequence

-- `Sequence::inc`, on `u64`; where overflow is checked it panics instead.
unfoldable pub inc : Sequence → Sequence
inc (strict n) = strict ((n + 1) % 2 ^ 64)
inc (loose n) = loose ((n + 1) % 2 ^ 64)

pub record Metadata : Type 0 where
  pub msg_type : ℕ
  pub instance_id : ℕ
  pub encoding : Encoding
  pub deadline : Option Deadline
  pub correlation_id : Option ℕ
  pub session_id : ℕ
  pub sequence : Option Sequence

-- `Metadata::new`, given the two ids that it generates.
unfoldable pub new_metadata :
    (instance_id session_id : ℕ) → ℕ → Encoding → Option Deadline → Metadata
new_metadata instance_id session_id msg_type encoding deadline = record {
  msg_type = msg_type;
  instance_id = instance_id;
  encoding = encoding;
  deadline = deadline;
  correlation_id = none;
  session_id = session_id;
  sequence = none;
}

unfoldable pub set_session_id : ℕ → Metadata → Metadata
set_session_id session_id md = record md { session_id = session_id }

unfoldable pub set_sequence : Sequence → Metadata → Metadata
set_sequence sequence md = record md { sequence = some sequence }

unfoldable pub correlate : ℕ → Metadata → Metadata
correlate instance_id md = record md { correlation_id = some instance_id }

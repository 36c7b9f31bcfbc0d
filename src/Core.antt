-- ===== src/Core.antt =====
-- Messages of oysterpack-core/src/message: their encodings, envelopes and hashes, and the service.
pub mod Codec
pub mod Metadata
pub mod Deadlines
pub mod Envelopes
pub mod Hashes
pub mod Service

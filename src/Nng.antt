-- ===== src/Nng.antt =====
-- The crate oysterpack-trust-nng: request/reply servers and clients over nng sockets.
pub mod Types
pub mod Config
pub mod Context
pub mod Server
pub mod Client

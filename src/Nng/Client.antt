-- ===== src/Nng/Client.antt =====
-- The client side, oysterpack-trust-nng/src/reqrep/client.rs.
pub mod Config
pub mod Worker
pub mod Pool
pub mod Registry

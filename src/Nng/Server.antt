-- ===== src/Nng/Server.antt =====
-- The server side, oysterpack-trust-nng/src/reqrep/server.rs.
pub mod Worker
pub mod Listener
pub mod Handles

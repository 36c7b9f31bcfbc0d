-- ===== src/Rpc.antt =====
-- The rpc of oysterpack-message over nng (oysterpack-message/src/op_nng/rpc).
pub mod Client

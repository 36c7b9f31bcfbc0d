-- ===== src/ReqRep.antt =====
-- oysterpack-trust/src/concurrent/messaging/reqrep.rs: request/reply messaging.
pub mod Gauge
pub mod Service
pub mod Messages
pub mod Accounts
pub mod Replies
pub mod Client
pub mod Counts

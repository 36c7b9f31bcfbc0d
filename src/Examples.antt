-- ===== src/Examples.antt =====
-- Concrete instances of the parameters of the other modules, and runs of the theorems on them.
pub mod Ulids
pub mod Instances
pub mod Ids
pub mod Registry
pub mod Numbers
pub mod Timers
pub mod Executors
pub mod Messaging
pub mod Sockets
pub mod Servers
pub mod Clients
pub mod Formats
pub mod Envelopes
pub mod Rpcs
pub mod Domains

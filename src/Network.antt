-- ===== src/Network.antt =====
-- src/network: framing, sessions and the queues between the network and the other tasks.
pub mod Header
pub mod Tagged
pub mod Session
pub mod Xface

-- ===== src/Peer.antt =====
-- src/peer.rs: the downloads of a peer.
pub mod Files
pub mod Queue
pub mod Sources
pub mod Jobs
pub mod Schedule
pub mod Session
pub mod Loop
mod Tests

-- ===== src/Transfer.antt =====
-- src/transfer.rs: the segment transfer state machines.
pub mod Timing
pub mod Packets
pub mod Manifest
pub mod Sender
pub mod Assembly
pub mod Receiver
pub mod Table
pub mod Registry
mod Tests

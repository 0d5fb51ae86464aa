-- ===== src/Fault.antt =====
-- src/fault.rs: the random generator and the injector that every outgoing datagram goes through.
pub mod Rng
pub mod Injector
pub mod Steps
pub mod Ledger
pub mod Order
pub mod Runs
mod Tests

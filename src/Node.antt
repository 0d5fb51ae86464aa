-- ===== src/Node.antt =====
-- src/node.rs: the node, and what it knows of its peers.
pub mod Addr
pub mod Among
pub mod Public
pub mod Stats
pub mod Inventory
pub mod Paths
pub mod State
pub mod Seeding
pub mod Peerlist
pub mod Handle
pub mod Tick
pub mod Safety
pub mod Run
pub mod Sample
mod Tests

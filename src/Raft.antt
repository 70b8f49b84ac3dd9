-- ===== src/Raft.antt =====
-- server-rust/src/raft: one child for each of its files, and one for the shared cells.
pub mod Log
pub mod State
pub mod Storage
pub mod Timer
pub mod Messages
pub mod Node
pub mod Election
pub mod Rpc
pub mod Membership
pub mod Agreement
pub mod Pending
pub mod Replication
pub mod Service

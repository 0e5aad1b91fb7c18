-- ===== src/Raft.antt =====
-- The replicated state machine of crates/pg-agent-core/src/raftstore.rs, and its storage.
pub mod Machine
pub mod Terms
pub mod Takeover
pub mod Redb
pub mod Log
pub mod Storage
pub mod NodeIds

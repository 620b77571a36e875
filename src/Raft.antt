-- ===== src/Raft.antt =====
-- user/libs/raft.cpp and include/rlite/raft.hpp: the Raft replicated state machine.
pub mod Types
pub mod LogFile
pub mod Machine
pub mod Steps
pub mod Storage
pub mod Election
pub mod Replication
pub mod Acks
pub mod Handlers
pub mod Boot
pub mod Inputs
pub mod Votes
mod Tests

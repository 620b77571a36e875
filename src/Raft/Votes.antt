-- ===== src/Raft/Votes.antt =====
-- The vote of a term in user/libs/raft.cpp: what keeps it, whatever the system does to the log file.
pub mod Ballot
pub mod Keeping
pub mod Demoting
pub mod Terms
pub mod Runs
pub mod Requests
pub mod Twice
pub mod Durable
pub mod Restart
pub mod Failing

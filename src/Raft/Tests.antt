-- ===== src/Raft/Tests.antt =====
-- Replicas of user/libs/raft.cpp at concrete inputs, and the theorems applied to them.
mod Machines
mod Logs
mod Ballots
mod Leaders
mod Boots

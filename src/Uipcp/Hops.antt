-- ===== src/Uipcp/Hops.antt =====
-- The routing table that `compute_next_hops` of user/uipcps/uipcp-normal-lfdb.cpp makes of the database, as
-- a whole.
pub mod Graphs
pub mod Filling
pub mod Table
mod Tests

-- ===== src/Uipcp.antt =====
-- The management daemon of a normal IPC process: user/uipcps.
pub mod Lfdb
pub mod LinkState
pub mod Forwarding
pub mod Hops
mod Tests

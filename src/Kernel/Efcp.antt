-- ===== src/Kernel/Efcp.antt =====
-- The EFCP protocol of the normal IPC process in kernel/normal.c: both ends of a flow.
pub mod Types
pub mod Receive
pub mod Send
pub mod Control
pub mod Timers
pub mod Arrivals
pub mod InOrder
pub mod Runs
pub mod Complete
pub mod Opening
pub mod Acks
pub mod Window
pub mod Sending
pub mod Writing
pub mod Accepted
pub mod Resending
pub mod Sessions
pub mod Starts
pub mod Transfer
mod Tests

-- ===== src/Kernel.antt =====
-- The normal IPC process of the kernel module: kernel/normal.c and kernel/normal-common.c.
pub mod Efcp
pub mod Pduft
pub mod Sched
pub mod Seqq

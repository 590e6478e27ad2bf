-- ===== src/Kernel.antt =====
-- The kernel, blt/kernel.
pub mod NodeList
pub mod Queue
pub mod Memory
pub mod State
pub mod Resource
pub mod Demo
pub mod Sched
pub mod Sem
pub mod Port
pub mod Aspace
pub mod Area

-- ===== src/Kernel.antt =====
-- The kernel's modules, of core/kernel.
pub mod Arch
pub mod State
pub mod Scheduler
pub mod Ipc
pub mod Heap
pub mod Threads
pub mod Capabilities

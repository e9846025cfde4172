-- ===== src/Scheduling.antt =====
-- pylar/scheduling: tasks and when they are due, the runner with its overlap locks, the kernel.
pub mod Task
pub mod Builder
pub mod Schedule
pub mod Kernel

-- ===== src/Queue.antt =====
-- pylar/queue: the job queue.
pub mod Middleware
pub mod Record
pub mod Config
pub mod Memory
pub mod Worker
pub mod Supervisor
pub mod Dispatcher

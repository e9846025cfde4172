-- ===== src/Cache.antt =====
-- pylar/cache: the store protocol, its in-process driver, the facade over it, tags and locks.
pub mod Contract
pub mod Memory
pub mod Facade
pub mod Lock
pub mod Stampede

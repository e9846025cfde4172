-- ===== src/Foundation.antt =====
-- pylar/foundation: the service container.
pub mod Container
pub mod Application
pub mod Calling

-- ===== src/Routing.antt =====
-- pylar/routing: the router.
pub mod Router

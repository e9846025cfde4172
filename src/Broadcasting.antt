-- ===== src/Broadcasting.antt =====
-- pylar/broadcasting: the in-process broadcaster.
pub mod Memory

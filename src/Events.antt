-- ===== src/Events.antt =====
-- pylar/events: the listeners of an event.
pub mod Bus

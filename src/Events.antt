-- ===== src/Events.antt =====
-- Events and the workflows that they start (internal/engine/event_router.go).
pub mod Router
pub mod Matching
pub mod Routing
pub mod Running

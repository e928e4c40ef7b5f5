-- ===== src/Websocket.antt =====
-- The hub that sends messages to connected clients (internal/websocket).
pub mod Client
pub mod Hub
pub mod Filtering
pub mod Safety
pub mod Delivery
pub mod Sending
pub mod Reachable
pub mod Invariant
pub mod Entries

-- ===== src/Hub.antt =====
-- backend/pkg/websocket/hub.go, client.go, event.go and broadcaster.go: the hub that hands events to
-- the connected browsers. A `*Client` is a number; `send` is its channel, of 256 places.
pub mod Channels
pub mod Steps
pub mod Pending
pub mod Sends
pub mod Invariant
pub mod Delivery
pub mod Echo
pub mod Broadcaster
mod Tests

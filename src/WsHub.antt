-- ===== src/WsHub.antt =====
-- The sockets of ws/hub.go: the rooms and the clients of the hub, and the clients' channels.
pub mod Channel
pub mod Hub
pub mod Sending
pub mod Members
pub mod Live
pub mod Safety
pub mod Works
pub mod Steps
mod Tests

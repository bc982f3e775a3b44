-- ===== src/Network.antt =====
-- The components of network/ but the protocol and ESP-NOW.
mod Tests
pub mod Web
pub mod WebSocket
pub mod Wifi
pub mod Topics
pub mod Mqtt
pub mod Bus

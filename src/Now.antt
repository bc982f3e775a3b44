-- ===== src/Now.antt =====
-- ESP-NOW: network/base and the NowIo server.
mod Tests
pub mod Transport
pub mod Interaction
pub mod Requests
pub mod Io
pub mod Running

-- ===== src/Protocol.antt =====
-- The binary protocol that the WebSocket server speaks: network/protocol.
mod Tests
pub mod Types
pub mod Binary

-- ===== src/Base.antt =====
-- The components of base/.
pub mod Tests
pub mod Parameter
pub mod Metadata

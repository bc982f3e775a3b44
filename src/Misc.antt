-- ===== src/Misc.antt =====
-- The components of misc/.
mod Tests
pub mod CircularBuffer
pub mod Led
pub mod Storage
pub mod Timer
pub mod Vector
pub mod EventTopic
pub mod Button
pub mod Saving
pub mod NtpTime

-- ===== src/Async.antt =====
-- async/: what runs later, and when. `Dispatcher` is a queue with a task of its own, `SystemTimer` a
-- queue ordered by time, and promises stand on both.
pub mod Dispatcher
pub mod SystemTimer
pub mod World
pub mod Promise
pub mod Future
pub mod Running
pub mod Waiting
pub mod Untouched
mod Tests

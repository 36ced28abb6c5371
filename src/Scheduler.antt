-- ===== src/Scheduler.antt =====
-- frame/scheduler: the asynchronous and the synchronous scheduler of one server table.
pub mod Clock
pub mod Table
pub mod Sync
mod Tests

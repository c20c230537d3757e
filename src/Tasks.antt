-- ===== src/Tasks.antt =====
-- The Generation Task component: the crate `crates/tasks`, its module `generation_task::domain`.
pub mod Identity
pub mod Request
pub mod Failure
pub mod State
pub mod Canonical
pub mod Aggregate
mod Tests

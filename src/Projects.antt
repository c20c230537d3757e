-- ===== src/Projects.antt =====
-- The Project component: the crate crates/projects, its module `project::domain`.
pub mod Name
pub mod Aggregate
mod Tests

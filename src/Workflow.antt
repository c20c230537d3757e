-- ===== src/Workflow.antt =====
-- The Workflow component: the crate `crates/engine`, its modules `workflow` and `workflow_graph`.
pub mod Value
pub mod Plan
pub mod Run
pub mod Readiness
pub mod Application
pub mod Admission
pub mod Start
mod Tests

-- ===== src/Graph.antt =====
-- The editable Workflow graph: crates/engine/src/workflow_graph.
pub mod Value
pub mod Cycles
pub mod Aggregate
pub mod Mutation
pub mod Receipt
pub mod Sample
mod Tests

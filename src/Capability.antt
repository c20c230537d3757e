-- ===== src/Capability.antt =====
-- Node capability contracts: crates/engine/src/node_capability.
pub mod Key
pub mod Parameter
pub mod Contract
pub mod Registry
pub mod Canonical
mod Tests

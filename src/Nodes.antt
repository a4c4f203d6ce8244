-- ===== src/Nodes.antt =====
-- The hosts of the fleet: packages/control-plane/src/runtime/nodes.ts and nodeHealth.ts.
pub mod Runtimes
pub mod Names
pub mod Pick
pub mod Resolve

-- ===== src/Orchestrator.antt =====
-- The lifecycle of lab instances: packages/control-plane/src/orchestrator.ts.
pub mod Viewer
pub mod Hosts
pub mod Sync
pub mod Lifecycle
pub mod Destroy
pub mod Reconcile
pub mod Provision
pub mod Acquire

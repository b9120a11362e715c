-- ===== src/PcoreBinding.antt =====
-- The agent that binds pods to physical cores (pkg/kunpeng-tap-pcore-binding).
pub mod Topology
pub mod Agent
pub mod Reconcile
mod Examples

-- ===== src/TopologyAware.antt =====
-- The topology-aware policy (pkg/kunpeng-tap/policy/topology-aware).
pub mod Outcome
pub mod CpuSets
pub mod Request
pub mod Supply
pub mod Tree
pub mod Propagate
pub mod Policy
pub mod Filter
pub mod Sorter
pub mod Selection
pub mod Hooks
pub mod Rebuild
pub mod Builder
mod Examples

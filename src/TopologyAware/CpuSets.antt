-- ===== src/TopologyAware/CpuSets.antt =====
-- k8s.io/utils/cpuset, which the policy only calls: a type of sets of CPU numbers and the functions
-- that the policy uses, as a parameter of the model.
use cloud_native.Prelude.{ℕ, Bool, String, Option}

pub record CpuSetLib : Type 1 where
  pub CpuSet : Type 0
  pub new : CpuSet
  pub size : CpuSet → ℕ
  pub union : CpuSet → CpuSet → CpuSet
  pub intersection : CpuSet → CpuSet → CpuSet
  pub difference : CpuSet → CpuSet → CpuSet
  pub is_subset_of : CpuSet → CpuSet → Bool
  -- `none` is the error of `cpuset.Parse`.
  pub parse : String → Option CpuSet
  pub format : CpuSet → String

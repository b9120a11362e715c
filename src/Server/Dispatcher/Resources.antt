-- ===== src/Server/Dispatcher/Resources.antt =====
-- server/dispatcher/utils.go: the two messages for Linux resources, which have the same fields. (Huge
-- pages and the unified map are left out of both.)
use cloud_native.Prelude.{ℕ, Option, none, some, ◌≡◌, refl}
use cloud_native.TopologyAware.Request.Devices.{Text}
use cloud_native.Cache.Resources.{LinuxContainerResources}

pub record CriResources : Type 0 where
  pub cpu_period : ℕ
  pub cpu_quota : ℕ
  pub cpu_shares : ℕ
  pub memory_limit_in_bytes : ℕ
  pub oom_score_adj : ℕ
  pub cpuset_cpus : Text
  pub cpuset_mems : Text
  pub memory_swap_limit_in_bytes : ℕ

unfoldable pub transfer_to_cri_resources : Option LinuxContainerResources → Option CriResources
transfer_to_cri_resources none = none
transfer_to_cri_resources (some r) = some (record {
  cpu_period = r.cpu_period;
  cpu_quota = r.cpu_quota;
  cpu_shares = r.cpu_shares;
  memory_limit_in_bytes = r.memory_limit_in_bytes;
  oom_score_adj = r.oom_score_adj;
  cpuset_cpus = r.cpuset_cpus;
  cpuset_mems = r.cpuset_mems;
  memory_swap_limit_in_bytes = r.memory_swap_limit_in_bytes;
})

unfoldable pub transfer_to_hook_resources : Option CriResources → Option LinuxContainerResources
transfer_to_hook_resources none = none
transfer_to_hook_resources (some r) = some (record {
  cpu_period = r.cpu_period;
  cpu_quota = r.cpu_quota;
  cpu_shares = r.cpu_shares;
  memory_limit_in_bytes = r.memory_limit_in_bytes;
  oom_score_adj = r.oom_score_adj;
  cpuset_cpus = r.cpuset_cpus;
  cpuset_mems = r.cpuset_mems;
  memory_swap_limit_in_bytes = r.memory_swap_limit_in_bytes;
})

-- Nothing is lost on the way there and back.
pub transfer_lem :
    (r : Option LinuxContainerResources)
    → transfer_to_hook_resources (transfer_to_cri_resources r) ≡ r
unfolding transfer_to_hook_resources transfer_to_cri_resources
transfer_lem none = refl
transfer_lem (some r) = refl

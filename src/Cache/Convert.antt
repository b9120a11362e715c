-- ===== src/Cache/Convert.antt =====
-- convertNriLinuxResources of container.go and of pod.go, whose bodies are the same: only positive
-- amounts are taken over.
use cloud_native.Prelude.{ℕ, Option, none, some, if◌then◌else◌}
use cloud_native.Word64.{is_pos}
use cloud_native.TopologyAware.Request.Devices.{Text, is_empty}
use cloud_native.Cache.Resources.{LinuxContainerResources, no_resources}
use cloud_native.Cache.Messages.{NriCpu, NriResources}

-- `if x := get(); x != nil { if x.Value > 0 { field = x.Value } }`
abbrev pub valid_amount : Option ℕ → ℕ → ℕ
valid_amount none field = field
valid_amount (some value) field = if is_pos value then value else field

-- `if s != "" { field = s }`
abbrev pub non_empty : Text → Text → Text
non_empty s field = if is_empty s then field else s

convert_cpu : Option NriCpu → LinuxContainerResources → LinuxContainerResources
convert_cpu none r = r
convert_cpu (some cpu) r = record r {
  cpu_period = valid_amount cpu.period r.cpu_period;
  cpu_quota = valid_amount cpu.quota r.cpu_quota;
  cpu_shares = valid_amount cpu.shares r.cpu_shares;
  cpuset_cpus = non_empty cpu.cpus r.cpuset_cpus;
  cpuset_mems = non_empty cpu.mems r.cpuset_mems;
}

convert_memory : Option (Option ℕ) → LinuxContainerResources → LinuxContainerResources
convert_memory none r = r
convert_memory (some limit) r = record r {
  memory_limit_in_bytes = valid_amount limit r.memory_limit_in_bytes;
}

unfoldable pub convert_nri_linux_resources : Option NriResources → Option LinuxContainerResources
unfolding convert_cpu convert_memory
convert_nri_linux_resources none = none
convert_nri_linux_resources (some nri) =
    some
      (record (convert_memory nri.memory (convert_cpu nri.cpu no_resources)) { oom_score_adj = 0 })

-- The method of `pod`
unfoldable pub convert_pod_linux_resources : Option NriResources → Option LinuxContainerResources
unfolding convert_nri_linux_resources
convert_pod_linux_resources nri = convert_nri_linux_resources nri

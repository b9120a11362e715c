-- ===== src/PolicyManager/Examples.antt =====
-- The merge at concrete allocations.
use cloud_native.Prelude.{◌≡◌, Option, none, some, List, [], ◌∷◌}
use cloud_native.TopologyAware.Request.Devices.{codes}
use cloud_native.Cache.Resources.{LinuxContainerResources, no_resources}
use cloud_native.PolicyManager.Merge.{ensure_container_resources, merge_all}
use cloud_native.PolicyManager.Merge.Last.{ensure-merge_all}

-- A CPU set, no Resources, and memory nodes with a quota
abbrev allocs : List (Option LinuxContainerResources)
allocs =
    some (record no_resources { cpuset_cpus = codes "0-3"; cpu_quota = 50 })
    ∷ none
    ∷ some (record no_resources { cpuset_mems = codes "0"; cpu_quota = 70 })
    ∷ []

abbrev request : LinuxContainerResources
request = record no_resources { cpuset_cpus = codes "0-63"; cpu_shares = 1024; oom_score_adj = 5 }

ensure-merge_all_example :
    ensure_container_resources (merge_all allocs (some request))
    ≡ record request { cpuset_cpus = codes "0-3"; cpuset_mems = codes "0"; cpu_quota = 70 }
unfolding ensure_container_resources
ensure-merge_all_example = ensure-merge_all allocs (some request)

-- ===== src/PolicyManager/Merge.antt =====
-- The merge of allocations: Allocation.Merge of policy/policy.go and mergeAllocations of util.go.
pub mod Last
use cloud_native.Prelude.{
  ℕ, Bool, true, false, ◌&&◌, Option, none, some, List, [], ◌∷◌, ◌==◌, if◌then◌else◌,
}
use cloud_native.TopologyAware.Request.Devices.{Text, is_empty}
use cloud_native.Cache.Resources.{LinuxContainerResources, no_resources}
use cloud_native.Server.HookManager.{ContainerResourceHookResponse}

-- The resources of the response, after `ensureContainerResources`
unfoldable pub ensure_container_resources : Option LinuxContainerResources → LinuxContainerResources
ensure_container_resources none = no_resources
ensure_container_resources (some r) = r

-- `if field != 0 { ensure; resp.field = field }`
merge_if :
    Bool
    → (LinuxContainerResources → LinuxContainerResources)
    → Option LinuxContainerResources
    → Option LinuxContainerResources
unfolding ensure_container_resources
merge_if true change resp = resp
merge_if false change resp = some (change (ensure_container_resources resp))

unfoldable pub merge_cpu_resources :
    LinuxContainerResources → Option LinuxContainerResources → Option LinuxContainerResources
unfolding merge_if
merge_cpu_resources a resp =
    merge_if (a.cpu_shares == 0) (λ r. record r { cpu_shares = a.cpu_shares })
      (merge_if (a.cpu_quota == 0) (λ r. record r { cpu_quota = a.cpu_quota })
        (merge_if (a.cpu_period == 0) (λ r. record r { cpu_period = a.cpu_period }) resp))

unfoldable pub merge_cpu_set_resources :
    LinuxContainerResources → Option LinuxContainerResources → Option LinuxContainerResources
unfolding merge_if
merge_cpu_set_resources a resp =
    merge_if (is_empty a.cpuset_cpus) (λ r. record r { cpuset_cpus = a.cpuset_cpus })
      (merge_if (is_empty a.cpuset_mems) (λ r. record r { cpuset_mems = a.cpuset_mems }) resp)

unfoldable pub merge_memory_resources :
    LinuxContainerResources → Option LinuxContainerResources → Option LinuxContainerResources
unfolding merge_if
merge_memory_resources a resp =
    merge_if (a.memory_swap_limit_in_bytes == 0)
      (λ r. record r { memory_swap_limit_in_bytes = a.memory_swap_limit_in_bytes })
      (merge_if (a.memory_limit_in_bytes == 0)
        (λ r. record r { memory_limit_in_bytes = a.memory_limit_in_bytes }) resp)

-- An allocation with nil Resources changes nothing.
unfoldable pub merge :
    Option LinuxContainerResources → Option LinuxContainerResources → Option LinuxContainerResources
unfolding merge_cpu_resources merge_cpu_set_resources merge_memory_resources
merge none resp = resp
merge (some a) resp =
    merge_memory_resources a (merge_cpu_set_resources a (merge_cpu_resources a resp))

-- The loop of mergeAllocations, on the resources of the response
unfoldable pub merge_all :
    List (Option LinuxContainerResources)
    → Option LinuxContainerResources
    → Option LinuxContainerResources
unfolding merge
merge_all [] resp = resp
merge_all (alloc ∷ allocs) resp = merge_all allocs (merge alloc resp)

unfoldable pub merge_allocations :
    List (Option LinuxContainerResources)
    → ContainerResourceHookResponse
    → ContainerResourceHookResponse
unfolding merge_all
merge_allocations allocs resp = record resp {
  container_resources = merge_all allocs resp.container_resources;
}

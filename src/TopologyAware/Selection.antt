-- ===== src/TopologyAware/Selection.antt =====
-- The choice of a pool: findBestAvailablePool and findGPUAffinityPool of pool_filter.go, and the steps
-- of allocatePool in topology_aware.go up to it.
pub mod Filtered
pub mod Sound
pub mod Granted
use cloud_native.Prelude.{
  ℕ, Bool, true, false, ◌&&◌, Option, none, some, List, [], ◌∷◌, str_eq, if◌then◌else◌,
}
use cloud_native.TopologyAware.Outcome.{Outcome, ok, err, no_pool}
use cloud_native.TopologyAware.CpuSets.{CpuSetLib}
use cloud_native.TopologyAware.Request.{Request}
use cloud_native.TopologyAware.Request.Devices.{is_empty}
use cloud_native.TopologyAware.Tree.{get_numa_ids}
use cloud_native.TopologyAware.Policy.{Policy}
use cloud_native.TopologyAware.Filter.{
  filter_pools_by_capacity, find_regular_pool, get_requested_gpu_numa_nodes,
  calculate_gpu_numa_affinity, is_pool_in_gpu_numa_nodes, calculate_pool_affinities,
}
use cloud_native.TopologyAware.Sorter.{gpu_first, sort_pools_by_score}

pool_or : Option ℕ → Option ℕ → Option ℕ
pool_or none o = o
pool_or (some r) o = some r

outcome_of : Option ℕ → Outcome ℕ
outcome_of none = err no_pool
outcome_of (some r) = ok r

module _ (lib : CpuSetLib) where
  -- The loop that takes the first pool at a NUMA node of a requested device.
  unfoldable pub first_at_gpu : Policy lib → List ℕ → List ℕ → Option ℕ
  first_at_gpu p gpu_numa [] = none
  first_at_gpu p gpu_numa (pool ∷ pools) =
      let rest = first_at_gpu p gpu_numa pools in
      if is_pool_in_gpu_numa_nodes (get_numa_ids lib p.nodes (p.free pool).node) gpu_numa
      then some pool
      else rest

  -- With no pool left after the filter there is none in the sorted list either.
  unfoldable pub find_gpu_affinity_pool : Policy lib → Request → Option ℕ
  unfolding first_at_gpu
  find_gpu_affinity_pool p req =
      let gpu_numa = get_requested_gpu_numa_nodes lib p req in
      if is_empty gpu_numa
      then none
      else first_at_gpu p gpu_numa (
          sort_pools_by_score lib p req (calculate_gpu_numa_affinity gpu_numa)
            (filter_pools_by_capacity lib p req))

  unfoldable pub find_best_available_pool : Policy lib → Request → List ℕ → Option ℕ
  unfolding pool_or find_gpu_affinity_pool
  find_best_available_pool p req pools =
      let regular = find_regular_pool lib p req pools in
      if str_eq p.resource_priority gpu_first && req.has_gpu_request
      then pool_or (find_gpu_affinity_pool p req) regular
      else regular

  -- Filter, sort, pick. A sorted list is empty only if the filtered one is.
  unfoldable pub select_pool : Policy lib → Request → Outcome ℕ
  unfolding outcome_of find_best_available_pool
  select_pool p req =
      let filtered = filter_pools_by_capacity lib p req in
      let sorted = sort_pools_by_score lib p req (calculate_pool_affinities lib p req) filtered in
      if is_empty filtered
      then err no_pool
      else if is_empty sorted
      then err no_pool
      else outcome_of (find_best_available_pool p req sorted)

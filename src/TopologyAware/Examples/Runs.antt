-- ===== src/TopologyAware/Examples/Runs.antt =====
-- Runs of the policy on the small machine.
use cloud_native.Prelude.{none, some, ◌≡◌, refl}
use cloud_native.TopologyAware.Filter.{
  print_int, text_eq, weight_at, increment, contains, matches_of, matched_numa_nodes,
  calculate_gpu_numa_affinity, is_pool_in_gpu_numa_nodes, check_request_from,
  check_capacity_by_request, check_memory_from, check_memory_capacity, has_capacity,
  pools_with_capacity, filter_pools_by_capacity, deepest_from, find_regular_pool,
  get_requested_gpu_numa_nodes, calculate_specific_gpu_affinity, calculate_pool_affinities,
}
use cloud_native.TopologyAware.Tree.{memory_info, memory_info_in}
use cloud_native.TopologyAware.Hooks.{
  pre_create_container_hook, parse_cgroup_for_qos_class, load_grant, delete_grant, store_grant,
  grant_key, grant_at, allocate_at, choose_pool, allocate_pool,
}
use cloud_native.TopologyAware.Outcome.{ok}
use cloud_native.TopologyAware.Policy.{count_at, count_colocation, score_of}
use cloud_native.TopologyAware.Propagate.{
  add_grant, update_parent_resource, propagate_from, propagate_resource_to_parent,
}
use cloud_native.TopologyAware.Rebuild.{best_match, find_node_by_cpu_set}
use cloud_native.TopologyAware.Request.{
  get_requests, get_limits, parse_resource_requirements, process_gpu_device_requests, new_request,
}
use cloud_native.TopologyAware.Selection.{
  first_at_gpu, find_gpu_affinity_pool, find_best_available_pool, select_pool,
}
use cloud_native.TopologyAware.Sorter.{
  lookup_score, pool_affinity, compare_shared_capacity, compare_colocated,
  compare_resource_capacity, compare_depth, affinity_of, compare_gpu_affinity, compare_cpu_capacity,
  apply_resource_priority_strategy, compare_nodes, score_map, sort_slice, sort_pools_by_score,
}
use cloud_native.TopologyAware.Supply.{
  new_grant, sum_gpus, total_shared_cpu, allocatable_shared_cpu, allocatable_cpu_by_request,
  allocatable_cpu_by_limit, allocatable_memory, get_score, allocate_cpu, allocate,
}
use cloud_native.TopologyAware.Tree.{parent_of, node_id, root_distance, numa_ids_in, get_numa_ids}
use cloud_native.TopologyAware.Examples.{
  toy_lib, toy, toy_container, toy_request, toy_grant, toy_key, toy_after, big_request, toy_again,
  toy_allocation,
}

pub select_pool-toy : select_pool toy_lib toy toy_request ≡ ok 3
unfolding filter_pools_by_capacity score_of parent_of sort_pools_by_score compare_nodes score_map
    node_id compare_resource_capacity compare_depth root_distance compare_shared_capacity
    compare_colocated apply_resource_priority_strategy compare_cpu_capacity compare_gpu_affinity
    find_regular_pool calculate_gpu_numa_affinity calculate_pool_affinities
    calculate_specific_gpu_affinity check_capacity_by_request check_memory_capacity
    check_memory_from check_request_from contains deepest_from get_requested_gpu_numa_nodes
    increment is_pool_in_gpu_numa_nodes matched_numa_nodes matches_of pools_with_capacity print_int
    text_eq weight_at count_at count_colocation find_best_available_pool find_gpu_affinity_pool
    first_at_gpu affinity_of lookup_score pool_affinity sort_slice allocatable_cpu_by_limit
    allocatable_cpu_by_request allocatable_memory allocatable_shared_cpu get_score sum_gpus
    total_shared_cpu get_numa_ids numa_ids_in has_capacity select_pool
select_pool-toy = refl

pub allocate_pool-toy : allocate_pool toy_lib toy toy_container ≡ ok (toy_after, toy_grant)
unfolding filter_pools_by_capacity score_of parent_of sort_pools_by_score compare_nodes score_map
    node_id compare_resource_capacity compare_depth root_distance compare_shared_capacity
    compare_colocated apply_resource_priority_strategy compare_cpu_capacity compare_gpu_affinity
    find_regular_pool calculate_gpu_numa_affinity calculate_pool_affinities
    calculate_specific_gpu_affinity check_capacity_by_request check_memory_capacity
    check_memory_from check_request_from contains deepest_from get_requested_gpu_numa_nodes
    increment is_pool_in_gpu_numa_nodes matched_numa_nodes matches_of pools_with_capacity print_int
    text_eq weight_at count_at count_colocation find_best_available_pool find_gpu_affinity_pool
    first_at_gpu affinity_of lookup_score pool_affinity sort_slice allocatable_cpu_by_limit
    allocatable_cpu_by_request allocatable_memory allocatable_shared_cpu get_score sum_gpus
    total_shared_cpu get_numa_ids numa_ids_in has_capacity select_pool allocate_pool grant_at
    allocate_at choose_pool new_request get_requests get_limits parse_resource_requirements
    process_gpu_device_requests store_grant delete_grant grant_key allocate allocate_cpu new_grant
    propagate_resource_to_parent update_parent_resource add_grant propagate_from
allocate_pool-toy = refl

pub select_pool_big : select_pool toy_lib toy big_request ≡ ok 0
unfolding filter_pools_by_capacity score_of parent_of sort_pools_by_score compare_nodes score_map
    node_id compare_resource_capacity compare_depth root_distance compare_shared_capacity
    compare_colocated apply_resource_priority_strategy compare_cpu_capacity compare_gpu_affinity
    find_regular_pool calculate_gpu_numa_affinity calculate_pool_affinities
    calculate_specific_gpu_affinity check_capacity_by_request check_memory_capacity
    check_memory_from check_request_from contains deepest_from get_requested_gpu_numa_nodes
    increment is_pool_in_gpu_numa_nodes matched_numa_nodes matches_of pools_with_capacity print_int
    text_eq weight_at count_at count_colocation find_best_available_pool find_gpu_affinity_pool
    first_at_gpu affinity_of lookup_score pool_affinity sort_slice allocatable_cpu_by_limit
    allocatable_cpu_by_request allocatable_memory allocatable_shared_cpu get_score sum_gpus
    total_shared_cpu get_numa_ids numa_ids_in has_capacity select_pool
select_pool_big = refl

pub allocate_pool_again : allocate_pool toy_lib toy_after toy_container ≡ ok toy_again
unfolding filter_pools_by_capacity score_of parent_of sort_pools_by_score compare_nodes score_map
    node_id compare_resource_capacity compare_depth root_distance compare_shared_capacity
    compare_colocated apply_resource_priority_strategy compare_cpu_capacity compare_gpu_affinity
    find_regular_pool calculate_gpu_numa_affinity calculate_pool_affinities
    calculate_specific_gpu_affinity check_capacity_by_request check_memory_capacity
    check_memory_from check_request_from contains deepest_from get_requested_gpu_numa_nodes
    increment is_pool_in_gpu_numa_nodes matched_numa_nodes matches_of pools_with_capacity print_int
    text_eq weight_at count_at count_colocation find_best_available_pool find_gpu_affinity_pool
    first_at_gpu affinity_of lookup_score pool_affinity sort_slice allocatable_cpu_by_limit
    allocatable_cpu_by_request allocatable_memory allocatable_shared_cpu get_score sum_gpus
    total_shared_cpu get_numa_ids numa_ids_in has_capacity select_pool allocate_pool grant_at
    allocate_at choose_pool new_request get_requests get_limits parse_resource_requirements
    process_gpu_device_requests store_grant delete_grant grant_key allocate allocate_cpu new_grant
    propagate_resource_to_parent update_parent_resource add_grant propagate_from
allocate_pool_again = refl

pub load_grant_again : load_grant toy_key toy_after.grants ≡ some toy_grant
unfolding load_grant store_grant delete_grant grant_at
load_grant_again = refl

pub find_node_by_cpu_set-toy : find_node_by_cpu_set toy_lib toy "0-1" ≡ some 3
unfolding find_node_by_cpu_set best_match root_distance
find_node_by_cpu_set-toy = refl

pub find_node_by_cpu_set_9 : find_node_by_cpu_set toy_lib toy "9" ≡ none
unfolding find_node_by_cpu_set best_match root_distance
find_node_by_cpu_set_9 = refl

pub pre_create_container_hook-toy :
    pre_create_container_hook toy_lib toy toy_container ≡ ok (toy_after, some toy_allocation)
unfolding filter_pools_by_capacity score_of parent_of sort_pools_by_score compare_nodes score_map
    node_id compare_resource_capacity compare_depth root_distance compare_shared_capacity
    compare_colocated apply_resource_priority_strategy compare_cpu_capacity compare_gpu_affinity
    find_regular_pool calculate_gpu_numa_affinity calculate_pool_affinities
    calculate_specific_gpu_affinity check_capacity_by_request check_memory_capacity
    check_memory_from check_request_from contains deepest_from get_requested_gpu_numa_nodes
    increment is_pool_in_gpu_numa_nodes matched_numa_nodes matches_of pools_with_capacity print_int
    text_eq weight_at count_at count_colocation find_best_available_pool find_gpu_affinity_pool
    first_at_gpu affinity_of lookup_score pool_affinity sort_slice allocatable_cpu_by_limit
    allocatable_cpu_by_request allocatable_memory allocatable_shared_cpu get_score sum_gpus
    total_shared_cpu get_numa_ids numa_ids_in has_capacity select_pool allocate_pool grant_at
    allocate_at choose_pool new_request get_requests get_limits parse_resource_requirements
    process_gpu_device_requests store_grant delete_grant grant_key allocate allocate_cpu new_grant
    propagate_resource_to_parent update_parent_resource add_grant propagate_from
    pre_create_container_hook parse_cgroup_for_qos_class memory_info memory_info_in load_grant
pre_create_container_hook-toy = refl

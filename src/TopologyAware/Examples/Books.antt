-- ===== src/TopologyAware/Examples/Books.antt =====
-- The theorems about the hooks and the rebuild, on the small machine.
use cloud_native.Prelude.{ℕ, ◌+◌, true, false, some, none, [], ◌∷◌, ◌≡◌, refl, arith}
use cloud_native.TopologyAware.Outcome.{ok, is_ok}
use cloud_native.TopologyAware.Supply.{new_grant}
use cloud_native.TopologyAware.Tree.{root_distance}
use cloud_native.TopologyAware.Hooks.{
  grant_key, allocate_pool, release_pool, grant_at, store_grant, delete_grant, load_grant,
}
use cloud_native.TopologyAware.Hooks.Booked.{total, booked, share}
use cloud_native.TopologyAware.Hooks.Undo.{IsUndone, release_pool-allocate_pool}
use cloud_native.TopologyAware.Hooks.Account.{IsLight, IsAccounted, allocate_pool-IsAccounted}
use cloud_native.TopologyAware.Hooks.Returned.{release_pool-IsAccounted}
use cloud_native.TopologyAware.Hooks.Overwrite.{allocate_pool-overbooked}
use cloud_native.TopologyAware.Policy.{Policy}
use cloud_native.TopologyAware.Hooks.{
  KnownContainer, is_best_effort, parse_cgroup_for_qos_class, post_stop_container_hook,
}
use cloud_native.TopologyAware.Hooks.Lifecycle.{post_stop_container_hook-pre_create_container_hook}
use cloud_native.TopologyAware.Hooks.Served.{allocate_pool-ok}
use cloud_native.TopologyAware.Rebuild.{
  best_match, rebuild_allocations_from_cache, rebuild_one, create_grant_from_container, amounts_of,
  rebuild_container_allocation, find_node_by_cpu_set,
}
use cloud_native.TopologyAware.Rebuild.Account.{rebuild_allocations_from_cache-IsAccounted}
use cloud_native.TopologyAware.Rebuild.Match.{IsDeepestWith, find_node_by_cpu_set-IsDeepestWith}
use cloud_native.TopologyAware.Examples.{
  toy_lib, toy_nodes, toy_supply, toy, toy_requests, toy_limits, toy_container, toy_request,
  toy-IsOrdered, new_request-toy, toy_grant, toy_key, toy_after, toy_again, toy_cached,
}
use cloud_native.TopologyAware.Examples.Runs.{
  select_pool-toy, allocate_pool-toy, allocate_pool_again, load_grant_again,
  find_node_by_cpu_set-toy, pre_create_container_hook-toy,
}
use cloud_native.TopologyAware.Examples.Facts.{
  toy-IsAccounted, toy-IsBounded, toy-requests, toy-limits, toy-IsSettled,
}

toy_fresh : load_grant toy_key toy.grants ≡ none
unfolding load_grant
toy_fresh = refl

toy_after-IsLight : IsLight toy_lib toy_after.grants
unfolding total grant_at store_grant delete_grant
toy_after-IsLight = record {
  shared = omega arith;
  by_request = omega arith;
  by_limit = omega arith;
  memory = omega arith;
}

allocate_pool-IsAccounted_example : IsAccounted toy_lib toy_after
unfolding grant_key
allocate_pool-IsAccounted_example =
    allocate_pool-IsAccounted toy_lib toy toy_container toy_requests toy_limits toy-IsAccounted
      toy-requests toy-limits (omega arith) (omega arith) (omega arith) toy_fresh allocate_pool-toy
      toy_after-IsLight

toy_after-IsAccounted : IsAccounted toy_lib toy_after
unfolding grant_key
toy_after-IsAccounted =
    allocate_pool-IsAccounted toy_lib toy toy_container toy_requests toy_limits toy-IsAccounted
      toy-requests toy-limits (omega arith) (omega arith) (omega arith) toy_fresh allocate_pool-toy
      toy_after-IsLight

release_pool-IsAccounted_example :
    IsAccounted toy_lib (release_pool toy_lib toy_after toy_container).0
release_pool-IsAccounted_example =
    release_pool-IsAccounted toy_lib toy_after toy_container toy_after-IsAccounted

release_pool-allocate_pool_example :
    IsUndone toy_lib toy toy_key toy_grant (release_pool toy_lib toy_after toy_container)
unfolding grant_key
release_pool-allocate_pool_example =
    release_pool-allocate_pool toy_lib toy toy_container toy_requests toy_limits toy-IsSettled
      toy-requests toy-limits (omega arith) (omega arith) (omega arith) refl refl allocate_pool-toy

allocate_pool-overbooked_example :
    (toy_again.0.free 1).granted_cpu_by_request
    ≡ booked toy_lib toy_nodes (λ g. g.allocated_cpu_by_request) toy_again.0.grants 1
      + share toy_lib toy_nodes (λ g. g.allocated_cpu_by_request) 1 toy_grant
unfolding grant_at store_grant delete_grant total grant_key
allocate_pool-overbooked_example =
    allocate_pool-overbooked toy_lib toy_after toy_container toy_requests toy_limits toy_grant 1
      toy_after-IsAccounted toy-requests toy-limits (omega arith) (omega arith) (omega arith)
      load_grant_again allocate_pool_again (omega arith)

allocate_pool-ok_example : is_ok (allocate_pool toy_lib toy toy_container) ≡ true
allocate_pool-ok_example =
    allocate_pool-ok toy_lib toy toy_container toy_requests toy_limits toy_request 3 toy-IsOrdered
      toy-IsBounded toy-requests toy-limits (omega arith) (omega arith) (omega arith)
      new_request-toy refl select_pool-toy (ground arith)

toy_rebuilt-IsLight :
    IsLight toy_lib (rebuild_allocations_from_cache toy_lib toy (toy_cached ∷ [])).grants
unfolding total rebuild_allocations_from_cache rebuild_one rebuild_container_allocation
    find_node_by_cpu_set best_match root_distance load_grant store_grant delete_grant
    create_grant_from_container new_grant amounts_of
toy_rebuilt-IsLight = record {
  shared = omega arith;
  by_request = omega arith;
  by_limit = omega arith;
  memory = omega arith;
}

rebuild_allocations_from_cache-IsAccounted_example :
    IsAccounted toy_lib (rebuild_allocations_from_cache toy_lib toy (toy_cached ∷ []))
rebuild_allocations_from_cache-IsAccounted_example =
    rebuild_allocations_from_cache-IsAccounted toy_lib toy (toy_cached ∷ []) toy-IsAccounted
      toy_rebuilt-IsLight

find_node_by_cpu_set-IsDeepestWith_example : IsDeepestWith toy_lib toy (0 ∷ 1 ∷ []) 3
find_node_by_cpu_set-IsDeepestWith_example =
    find_node_by_cpu_set-IsDeepestWith toy_lib toy (0 ∷ 1 ∷ []) "0-1" 3 refl
      find_node_by_cpu_set-toy

abbrev toy_known : KnownContainer
toy_known = record { id = "i"; name = "c"; pod_uid = some "u" }

toy_qos : is_best_effort (parse_cgroup_for_qos_class toy_container.cgroup_parent) ≡ false
unfolding parse_cgroup_for_qos_class
toy_qos = refl

post_stop_container_hook-pre_create_container_hook_example :
    (t : Policy toy_lib) × (post_stop_container_hook toy_lib
        (λ id. some toy_known)
        toy_after
        toy_container
      ≡ ok t)
    × ((a : ℕ) → t.free a ≡ toy_supply a)
    × (t.grants ≡ delete_grant (grant_key "u" "c") [])
post_stop_container_hook-pre_create_container_hook_example =
    post_stop_container_hook-pre_create_container_hook toy_lib (λ id. some toy_known) toy toy_after
      toy_container toy_container toy_requests toy_limits toy_known toy-IsSettled toy-requests
      toy-limits (omega arith) (omega arith) (omega arith) toy_qos pre_create_container_hook-toy
      refl refl refl refl refl refl refl

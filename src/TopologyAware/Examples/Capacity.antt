-- ===== src/TopologyAware/Examples/Capacity.antt =====
-- The theorems about supplies, the propagation and the checks of capacity, on the small machine.
use cloud_native.Prelude.{true, ◌&&◌, not, ◌==◌, ◌≡◌, ◌↔◌, refl, arith, if◌then◌else◌}
use cloud_native.TopologyAware.Outcome.{ok}
use cloud_native.TopologyAware.Request.{get_requests, get_limits}
use cloud_native.TopologyAware.Supply.{allocate, allocate_cpu, new_grant, release, Supply, Grant}
use cloud_native.TopologyAware.Supply.Reversible.{release-allocate}
use cloud_native.TopologyAware.Tree.{covers}
use cloud_native.TopologyAware.Propagate.{propagate_resource_to_parent, update_parent_resource}
use cloud_native.TopologyAware.Propagate.Chain.{propagate_resource_to_parent-at}
use cloud_native.TopologyAware.Filter.{check_capacity_by_request, check_memory_capacity}
use cloud_native.TopologyAware.Filter.Climb.{
  UpToRoot, FitsCpu, FitsMemory, check_capacity_by_request_iff, check_memory_capacity_iff,
}
use cloud_native.TopologyAware.Examples.{
  toy_lib, toy_nodes, toy_supply, toy, toy_request, value_or, toy-IsOrdered, toy_grant,
}
use cloud_native.TopologyAware.Examples.Facts.{toy-IsNonneg, toy-IsBounded, toy-IsReadable}

check_capacity_by_request_iff_example :
    (check_capacity_by_request toy_lib toy toy_request 3 ≡ true)
    ↔ UpToRoot toy_lib toy (FitsCpu toy_lib toy toy_request) 3
check_capacity_by_request_iff_example =
    check_capacity_by_request_iff toy_lib toy toy_request toy-IsBounded 3 (omega arith)
      toy-IsOrdered

check_memory_capacity_iff_example :
    (check_memory_capacity toy_lib toy toy_request 3 ≡ true)
    ↔ UpToRoot toy_lib toy (FitsMemory toy_lib toy toy_request) 3
check_memory_capacity_iff_example =
    check_memory_capacity_iff toy_lib toy toy_request toy-IsBounded 3 (omega arith) (omega arith)
      toy-IsOrdered

toy_taken : Supply toy_lib × Grant
toy_taken = value_or (toy_supply 3, toy_grant) (allocate toy_lib (toy_supply 3) toy_request true)

allocate_toy : allocate toy_lib (toy_supply 3) toy_request true ≡ ok toy_taken
unfolding toy_taken allocate allocate_cpu new_grant get_requests get_limits
allocate_toy = refl

release-allocate_example : release toy_lib toy_taken.0 toy_taken.1 ≡ toy_supply 3
release-allocate_example =
    release-allocate toy_lib (toy_supply 3) toy_request true (toy-IsNonneg 3) toy-IsReadable
      allocate_toy

propagate_resource_to_parent-at_example :
    propagate_resource_to_parent toy_lib toy_nodes toy_grant true toy.free 1 ≡ (
      if covers toy_lib toy_nodes 1 3 && not (3 == 1)
      then update_parent_resource toy_lib (toy_supply 1) toy_grant true
      else toy_supply 1)
propagate_resource_to_parent-at_example =
    propagate_resource_to_parent-at toy_lib toy_nodes toy-IsOrdered toy_grant true toy.free 1

-- ===== src/TopologyAware/Examples.antt =====
-- A small machine: a root over two sockets with one NUMA node each, 4 CPUs at every node, and a
-- container that asks for one CPU. The tests below this module run the policy on it.
mod Runs
mod Build
mod Facts
mod Books
mod Capacity
mod Choice
use cloud_native.Prelude.{
  ℕ, ◌<◌, ◌≤◌, ◌^◌, Bool, true, false, ◌&&◌, String, Option, none, some, List, [], ◌∷◌, ◌++◌, ◌==◌,
  str_eq, ◌≡◌, refl, arith, if◌then◌else◌,
}
use cloud_native.TopologyAware.CpuSets.{CpuSetLib}
use cloud_native.TopologyAware.Filter.{
  print_int, text_eq, weight_at, increment, contains, matches_of, matched_numa_nodes,
  calculate_gpu_numa_affinity, is_pool_in_gpu_numa_nodes, check_request_from,
  check_capacity_by_request, check_memory_from, check_memory_capacity, has_capacity,
  pools_with_capacity, filter_pools_by_capacity, deepest_from, find_regular_pool,
  get_requested_gpu_numa_nodes, calculate_specific_gpu_affinity, calculate_pool_affinities,
}
use cloud_native.TopologyAware.Tree.{memory_info, memory_info_in}
use cloud_native.TopologyAware.Hooks.{
  Allocation, pre_create_container_hook, parse_cgroup_for_qos_class, load_grant, delete_grant,
  store_grant, grant_key, grant_at, allocate_at, choose_pool, allocate_pool,
}
use cloud_native.TopologyAware.Outcome.{Outcome, ok, err, panic}
use cloud_native.TopologyAware.Policy.{count_at, count_colocation, score_of, Policy}
use cloud_native.TopologyAware.Propagate.{
  add_grant, update_parent_resource, propagate_from, propagate_resource_to_parent,
}
use cloud_native.TopologyAware.Rebuild.{
  best_match, find_node_by_cpu_set, CachedContainer, ContainerState,
}
use cloud_native.TopologyAware.Request.{
  get_requests, get_limits, parse_resource_requirements, process_gpu_device_requests, new_request,
  ContainerRequest, ResourceList, Request,
}
use cloud_native.TopologyAware.Selection.{
  first_at_gpu, find_gpu_affinity_pool, find_best_available_pool, select_pool,
}
use cloud_native.TopologyAware.Sorter.{
  lookup_score, pool_affinity, compare_shared_capacity, compare_colocated,
  compare_resource_capacity, compare_depth, affinity_of, compare_gpu_affinity, compare_cpu_capacity,
  apply_resource_priority_strategy, compare_nodes, score_map, sort_slice, sort_pools_by_score,
}
use cloud_native.TopologyAware.Supply.{
  new_grant, sum_gpus, total_shared_cpu, allocatable_shared_cpu, allocatable_cpu_by_request,
  allocatable_cpu_by_limit, allocatable_memory, get_score, allocate_cpu, allocate, Grant, Supply,
}
use cloud_native.TopologyAware.Tree.{
  parent_of, node_id, root_distance, numa_ids_in, get_numa_ids, NodeKind, Node, Nodes, IsOrdered,
}

abbrev count : List ℕ → ℕ
count [] = 0
count (x ∷ xs) = Prim.Native.Nat.suc (count xs)

abbrev member : ℕ → List ℕ → Bool
member x [] = false
member x (y ∷ ys) = if x == y then true else member x ys

abbrev keep : Bool → List ℕ → List ℕ → List ℕ
keep wanted [] ys = []
keep wanted (x ∷ xs) ys =
    let rest = keep wanted xs ys in
    if member x ys then if wanted then x ∷ rest else rest else if wanted then rest else x ∷ rest

abbrev within : List ℕ → List ℕ → Bool
within [] ys = true
within (x ∷ xs) ys = member x ys && within xs ys

-- Sets as lists without repetition; it reads and prints the texts of the tests alone.
abbrev pub toy_lib : CpuSetLib
toy_lib = record {
  CpuSet = List ℕ;
  new = [];
  size = λ s. count s;
  union = λ s t. s ++ keep false t s;
  intersection = λ s t. keep true s t;
  difference = λ s t. keep false s t;
  is_subset_of = λ s t. within s t;
  parse = λ s.
      if str_eq s "0-1" then some (0 ∷ 1 ∷ []) else if str_eq s "9" then some (9 ∷ []) else none;
  format = λ s. if count s == 4 then "0-3" else "";
}

abbrev toy_node : ℕ → NodeKind → ℕ → Option ℕ → List ℕ → ℕ → Node toy_lib
toy_node id kind depth parent children numa = record {
  id = id;
  kind = kind;
  depth = depth;
  parent = parent;
  children = children;
  numa_node_id = numa;
  mem_info = record { mem_total = 4096; mem_set = 0 ∷ [] };
}

abbrev pub toy_nodes : Nodes toy_lib
toy_nodes =
    toy_node 0 NodeKind.virtual_node 0 none (1 ∷ 2 ∷ []) 0
    ∷ toy_node 1 NodeKind.socket_node 1 (some 0) (3 ∷ []) 0
    ∷ toy_node 2 NodeKind.socket_node 1 (some 0) (4 ∷ []) 0
    ∷ toy_node 3 NodeKind.numa_node 2 (some 1) [] 0
    ∷ toy_node 4 NodeKind.numa_node 2 (some 2) [] 1
    ∷ []

abbrev pub toy_supply : ℕ → Supply toy_lib
toy_supply a = record {
  node = a;
  isolated = [];
  sharable = 0 ∷ 1 ∷ 2 ∷ 3 ∷ [];
  granted_shared = 0;
  granted_cpu_by_request = 0;
  granted_cpu_by_limit = 0;
  memory_total = 4096;
  granted_memory = 0;
}

abbrev pub toy : Policy toy_lib
toy = record {
  gpus = record { gpu_ids = []; gpu = λ i. none; node_gpus = λ i. 0 };
  nodes = toy_nodes;
  free = λ a. toy_supply a;
  pools = 0 ∷ 1 ∷ 3 ∷ 2 ∷ 4 ∷ [];
  root = 0;
  grants = [];
  enable_memory_topology = true;
  resource_priority = "cpu-first";
}

abbrev pub toy_requests : ResourceList
toy_requests = record { cpu_milli = 1000; memory = 0 }

abbrev pub toy_limits : ResourceList
toy_limits = record { cpu_milli = 2000; memory = 2048000 }

abbrev pub toy_container : ContainerRequest
toy_container = record {
  pod_uid = "u";
  pod_namespace = "default";
  container_id = "i";
  container_name = "c";
  cgroup_parent = [];
  container_envs = none;
  estimated_requirements = some (record { requests = some toy_requests; limits = some toy_limits });
}

abbrev pub toy_request : Request
toy_request = record {
  container = toy_container;
  cpu_limit = 2000;
  cpu_request = 1000;
  mem_limit = 2048000;
  mem_request = 0;
  has_gpu_request = false;
  requested_gpu_devices = [];
}

abbrev pub value_or {ℓ} : {A : Type ℓ} → A → Outcome A → A
value_or a (ok b) = b
value_or a (err e) = a
value_or a panic = a

pub toy-IsOrdered : IsOrdered toy_lib toy_nodes
unfolding parent_of
toy-IsOrdered = record { parent_lt = λ r p h. ground arith }

new_request-toy : new_request toy_container ≡ some toy_request
unfolding new_request
new_request-toy = refl

-- The container's grant at the NUMA node 3
abbrev pub toy_grant : Grant
toy_grant = record {
  container_ctx = toy_container;
  node = 3;
  exclusive = false;
  allocated_cpus = 1000;
  allocated_cpu_by_request = 1000;
  allocated_cpu_by_limit = 2000;
  allocated_memory = 2000;
}

abbrev pub toy_key : String
toy_key = "u:c"

-- The policy after the allocation
abbrev pub toy_after : Policy toy_lib
toy_after =
    (grant_at toy_lib toy toy_key 3 (add_grant toy_lib (toy_supply 3) toy_grant, toy_grant)).0

-- A request that fits at the root alone
abbrev pub big_request : Request
big_request = record toy_request { cpu_request = 5000 }

-- A second allocation for the same container
abbrev pub toy_again : Policy toy_lib × Grant
toy_again =
    let g : Grant = record toy_grant { node = 4 } in
    (grant_at toy_lib toy_after toy_key 4 (add_grant toy_lib (toy_after.free 4) g, g))

-- A running container of the cache
abbrev pub toy_cached : CachedContainer
toy_cached = record {
  id = "i";
  name = "c";
  namespace = "default";
  pod_uid = some "u";
  state = ContainerState.running;
  cpuset_cpus = "0-1";
  requests = some toy_requests;
  limits = some toy_limits;
  linux = none;
}

-- What the create hook answers
abbrev pub toy_allocation : Allocation
toy_allocation = record { cpuset_cpus = "0-3"; cpuset_mems = some "" }

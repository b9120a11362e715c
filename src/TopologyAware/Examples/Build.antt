-- ===== src/TopologyAware/Examples/Build.antt =====
-- A machine with two sockets, built and checked.
use cloud_native.Prelude.{true, none, some, [], ◌∷◌, ◌==◌, ◌≡◌, refl, if◌then◌else◌}
use cloud_native.TopologyAware.Outcome.{ok}
use cloud_native.TopologyAware.Supply.{MemInfo, new_supply, clone}
use cloud_native.TopologyAware.Tree.{root_distance, memory_info, memory_info_in}
use cloud_native.TopologyAware.Policy.{Policy}
use cloud_native.TopologyAware.Builder.{
  Hardware, add_child, link_parent, new_node, create_socket_nodes, place_of, create_numa_nodes,
  create_clusters_at, create_clusters, create_cluster_nodes, empty_tree, virtual_root,
  validate_socket_structure, set_node_id, collect_nodes, build_nodes,
  build_resource_pools_by_topology,
}
use cloud_native.TopologyAware.Builder.Account.{
  IsInitial, build_resource_pools_by_topology-IsInitial,
}
use cloud_native.TopologyAware.Examples.{toy, toy_lib, value_or}

abbrev toy_memory : MemInfo toy_lib
toy_memory = record { mem_total = 4096; mem_set = 0 ∷ [] }

abbrev toy_hardware : Hardware toy_lib
toy_hardware = record {
  validate_topology = true;
  memory_info = some toy_memory;
  allowed_set = 0 ∷ 1 ∷ 2 ∷ 3 ∷ [];
  isolated = [];
  package_ids = 0 ∷ 1 ∷ [];
  cpu_package = λ id. record {
    memory_info = some toy_memory;
    cpu_set = if id == 0 then 0 ∷ 1 ∷ [] else 2 ∷ 3 ∷ [];
    node_ids = id ∷ [];
  };
  node_ids = 0 ∷ 1 ∷ [];
  node = λ id. record {
    package_id = id;
    memory_info = none;
    cpu_set = if id == 0 then 0 ∷ 1 ∷ [] else 2 ∷ 3 ∷ [];
  };
  cluster_ids = 7 ∷ [];
  node_clusters = λ id. if id == 1 then 7 ∷ [] else [];
  cluster = λ id. some (2 ∷ 3 ∷ []);
}

toy_built : Policy toy_lib
unfolding add_child link_parent new_node create_socket_nodes place_of create_numa_nodes
    create_clusters_at create_clusters create_cluster_nodes empty_tree virtual_root
    validate_socket_structure set_node_id collect_nodes build_nodes build_resource_pools_by_topology
    new_supply clone root_distance memory_info memory_info_in
toy_built =
    value_or toy
      (build_resource_pools_by_topology toy_lib toy.gpus true "cpu-first" toy_hardware true)

built_ok :
    build_resource_pools_by_topology toy_lib toy.gpus true "cpu-first" toy_hardware true
    ≡ ok toy_built
unfolding toy_built add_child link_parent new_node create_socket_nodes place_of create_numa_nodes
    create_clusters_at create_clusters create_cluster_nodes empty_tree virtual_root
    validate_socket_structure set_node_id collect_nodes build_nodes build_resource_pools_by_topology
    new_supply clone root_distance memory_info memory_info_in
built_ok = refl

-- Root, first socket and its NUMA node, second socket, its NUMA node and the cluster
built_pools : toy_built.pools ≡ 0 ∷ 1 ∷ 3 ∷ 2 ∷ 4 ∷ 5 ∷ []
unfolding toy_built add_child link_parent new_node create_socket_nodes place_of create_numa_nodes
    create_clusters_at create_clusters create_cluster_nodes empty_tree virtual_root
    validate_socket_structure set_node_id collect_nodes build_nodes build_resource_pools_by_topology
    new_supply clone root_distance memory_info memory_info_in
built_pools = refl

build_resource_pools_by_topology-IsInitial_example : IsInitial toy_lib toy_built
build_resource_pools_by_topology-IsInitial_example =
    build_resource_pools_by_topology-IsInitial toy_lib toy.gpus true "cpu-first" toy_hardware true
      built_ok

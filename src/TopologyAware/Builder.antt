-- ===== src/TopologyAware/Builder.antt =====
-- topology_builder.go, with the constructors of node_impl.go and LinkParent and AddChildren of
-- node_base.go: the tree of nodes is built from the hardware.
pub mod Settled
pub mod Account
pub mod Rooted
use cloud_native.Prelude.{
  ℕ, zero, suc, ◌-◌, ◌^◌, Bool, true, false, not, ◌&&◌, ◌||◌, String, Option, none, some, List, [],
  ◌∷◌, ◌++◌, ◌==◌, ltb, length, get_elem?, if◌then◌else◌,
}
use cloud_native.Word64.{add64, is_neg}
use cloud_native.TopologyAware.Outcome.{Outcome, ok, err, panic, bad_topology, ◌>>=◌}
use cloud_native.TopologyAware.CpuSets.{CpuSetLib}
use cloud_native.TopologyAware.Request.Devices.{is_empty}
use cloud_native.TopologyAware.Supply.{MemInfo, Supply, new_supply, clone}
use cloud_native.TopologyAware.Tree.{NodeKind, Node, Nodes, Free, root_distance, memory_info}
use cloud_native.TopologyAware.Propagate.{set_free}
use cloud_native.TopologyAware.Policy.{Gpus, Policy}

module _ (lib : CpuSetLib) where
  -- What the builder asks `system.System`; `none` is the error of `MemoryInfo`, and the nil cluster.
  pub record CpuPackage : Type 0 where
    pub memory_info : Option (MemInfo lib)
    pub cpu_set : lib.CpuSet
    pub node_ids : List ℕ

  pub record SysNode : Type 0 where
    pub package_id : ℕ
    pub memory_info : Option (MemInfo lib)
    pub cpu_set : lib.CpuSet

  pub record Hardware : Type 0 where
    pub validate_topology : Bool
    pub memory_info : Option (MemInfo lib)
    pub allowed_set : lib.CpuSet
    pub isolated : lib.CpuSet
    pub package_ids : List ℕ
    pub cpu_package : ℕ → CpuPackage
    pub node_ids : List ℕ
    pub node : ℕ → SysNode
    pub cluster_ids : List ℕ
    pub node_clusters : ℕ → List ℕ
    pub cluster : ℕ → Option lib.CpuSet

  -- The tree so far: the nodes in the order of creation, their supplies, and the root.
  pub record Tree : Type 0 where
    pub nodes : Nodes lib
    pub free : Free lib
    pub root : Option ℕ

  -- `&system.MemInfo{}` after an error
  info_or_empty : Option (MemInfo lib) → MemInfo lib
  info_or_empty none = record { mem_total = 0; mem_set = lib.new }
  info_or_empty (some info) = info

  -- `AddChildren` at a place of the list. A new node is not among the children yet.
  unfoldable pub add_child : Nodes lib → ℕ → ℕ → Nodes lib
  add_child [] parent child = []
  add_child (n ∷ nodes) zero child = record n { children = n.children ++ child ∷ [] } ∷ nodes
  add_child (n ∷ nodes) (suc parent) child = n ∷ add_child nodes parent child

  -- `LinkParent` at a new node, which is at the end of the list
  unfoldable pub link_parent : Nodes lib → Option ℕ → Node lib → Nodes lib
  unfolding add_child
  link_parent nodes none n = nodes ++ record n { depth = 0 } ∷ []
  link_parent nodes (some parent) n =
      add_child (nodes ++ record n { depth = add64 (root_distance lib nodes parent) 1 } ∷ []) parent
        (length nodes)

  -- What the four constructors share: the node, its link, and its supply.
  unfoldable pub new_node :
      lib.CpuSet → Tree → NodeKind → Option ℕ → ℕ → Option (MemInfo lib) → lib.CpuSet → Tree
  unfolding link_parent info_or_empty
  new_node all_isolated t kind parent numa info cpus =
      let place = length t.nodes in
      let nodes = link_parent t.nodes parent (record {
        id = 2 ^ 64 - 1;
        kind = kind;
        depth = 0;
        parent = parent;
        children = [];
        numa_node_id = numa;
        mem_info = info_or_empty info;
      }) in
      let isolated = lib.intersection cpus all_isolated in
      let sharable = lib.difference cpus isolated in
      let memory = memory_info lib nodes place in
      record t {
        nodes = nodes;
        free =
            set_free lib t.free place
              (clone lib memory (new_supply lib place memory isolated sharable));
      }

  -- The root if there is none yet
  root_or : Option ℕ → ℕ → Option ℕ
  root_or none place = some place
  root_or (some r) place = some r

  -- The loop of `createSocketNodes`, with the map of sockets
  unfoldable pub create_socket_nodes : Hardware → List ℕ → Tree → List (ℕ × ℕ) → Tree × List (ℕ × ℕ)
  unfolding new_node root_or
  create_socket_nodes hw [] t sockets = (t, sockets)
  create_socket_nodes hw (id ∷ ids) t sockets =
      let place = length t.nodes in
      let u =
        new_node hw.isolated t NodeKind.socket_node t.root 0 (hw.cpu_package id).memory_info
          (hw.cpu_package id).cpu_set in
      create_socket_nodes hw ids (record u { root = root_or t.root place }) ((id, place) ∷ sockets)

  unfoldable pub place_of : ℕ → List (ℕ × ℕ) → Option ℕ
  place_of id [] = none
  place_of id ((k, place) ∷ places) =
      let rest = place_of id places in if k == id then some place else rest

  create_numa_node : Hardware → ℕ → Tree → Option ℕ → Outcome Tree
  unfolding new_node
  create_numa_node hw id t none = panic
  create_numa_node hw id t (some socket) = ok (
      new_node hw.isolated t NodeKind.numa_node (some socket) id (hw.node id).memory_info
        (hw.node id).cpu_set)

  -- The loop of `createNumaNodes`. A NUMA node whose socket is missing is a nil dereference.
  unfoldable pub create_numa_nodes :
      Hardware → List (ℕ × ℕ) → List ℕ → Tree → List (ℕ × ℕ) → Outcome (Tree × List (ℕ × ℕ))
  unfolding create_numa_node place_of
  create_numa_nodes hw sockets [] t numas = ok (t, numas)
  create_numa_nodes hw sockets (id ∷ ids) t numas =
      create_numa_node hw id t (place_of (hw.node id).package_id sockets) >>= λ u.
      create_numa_nodes hw sockets ids u ((id, length t.nodes) ∷ numas)

  create_cluster_node : Hardware → Tree → ℕ → Option lib.CpuSet → Tree
  unfolding new_node
  create_cluster_node hw t numa none = t
  create_cluster_node hw t numa (some cpus) =
      new_node hw.isolated t NodeKind.cluster_node (some numa) 0 none cpus

  -- The inner loop of `createClusterNodes`
  unfoldable pub create_clusters_at : Hardware → ℕ → List ℕ → Tree → Tree
  unfolding create_cluster_node
  create_clusters_at hw numa [] t = t
  create_clusters_at hw numa (id ∷ ids) t =
      create_clusters_at hw numa ids (create_cluster_node hw t numa (hw.cluster id))

  -- The outer loop, over a map and so in any order
  unfoldable pub create_clusters : Hardware → List (ℕ × ℕ) → Tree → Tree
  unfolding create_clusters_at
  create_clusters hw [] t = t
  create_clusters hw ((id, numa) ∷ numas) t =
      create_clusters hw numas (create_clusters_at hw numa (hw.node_clusters id) t)

  unfoldable pub create_cluster_nodes : Hardware → Bool → List (ℕ × ℕ) → Tree → Tree
  unfolding create_clusters
  create_cluster_nodes hw enabled numas t =
      if not enabled || is_empty hw.cluster_ids then t else create_clusters hw numas t

  valid_sockets : Hardware → List ℕ → Bool
  valid_sockets hw [] = true
  valid_sockets hw (id ∷ ids) =
      let rest = valid_sockets hw ids in
      if is_neg id then false else if is_empty (hw.cpu_package id).node_ids then false else rest

  unfoldable pub validate_socket_structure : Hardware → Bool
  unfolding valid_sockets
  validate_socket_structure hw =
      if is_empty hw.package_ids then false else valid_sockets hw hw.package_ids

  -- Before the first node. A place where no node stands has an empty supply, which nothing reads.
  unfoldable pub empty_tree : Tree
  empty_tree = record {
    nodes = [];
    free = λ a. record {
      node = a;
      isolated = lib.new;
      sharable = lib.new;
      granted_shared = 0;
      granted_cpu_by_request = 0;
      granted_cpu_by_limit = 0;
      memory_total = 0;
      granted_memory = 0;
    };
    root = none;
  }

  -- A machine with more than one socket has a virtual root.
  unfoldable pub virtual_root : Hardware → Tree
  unfolding new_node empty_tree
  virtual_root hw =
      if ltb 1 (length hw.package_ids)
      then record (new_node hw.isolated empty_tree NodeKind.virtual_node none 0 hw.memory_info
          hw.allowed_set) { root = some 0 }
      else empty_tree

  -- `buildResourcePoolsByTopology` up to the nodes
  unfoldable pub build_nodes : Hardware → Bool → Outcome Tree
  unfolding virtual_root create_socket_nodes create_numa_nodes create_cluster_nodes
      validate_socket_structure
  build_nodes hw cluster_affinity =
      if not hw.validate_topology
      then err bad_topology
      else if not (validate_socket_structure hw)
      then err bad_topology
      else let s = create_socket_nodes hw hw.package_ids (virtual_root hw) [] in
        create_numa_nodes hw s.1 hw.node_ids s.0 [] >>= λ r.
        ok (create_cluster_nodes hw cluster_affinity r.1 r.0)

  unfoldable pub set_node_id : Nodes lib → ℕ → ℕ → Nodes lib
  set_node_id [] place id = []
  set_node_id (n ∷ nodes) zero id = record n { id = id } ∷ nodes
  set_node_id (n ∷ nodes) (suc place) id = n ∷ set_node_id nodes place id

  children_field : Option (Node lib) → List ℕ
  children_field none = []
  children_field (some n) = n.children

  -- The state of `collectNodes`
  pub record Pools : Type 0 where
    pub nodes : Nodes lib
    pub pools : List ℕ
    pub node_cnt : ℕ

  collect_children : (Pools → ℕ → Pools) → Pools → List ℕ → Pools
  collect_children collect s [] = s
  collect_children collect s (child ∷ children) =
      collect_children collect (collect s child) children

  -- A child stands after its parent in the list, so the number of nodes bounds the depth.
  unfoldable pub collect_nodes : ℕ → Pools → ℕ → Pools
  unfolding set_node_id children_field collect_children
  collect_nodes zero s place = s
  collect_nodes (suc fuel) s place =
      collect_children (λ s child. collect_nodes fuel s child)
        (record s {
          nodes = set_node_id s.nodes place s.node_cnt;
          pools = s.pools ++ place ∷ [];
          node_cnt = add64 s.node_cnt 1;
        })
        (children_field (get_elem? s.nodes place))

  policy_of : Gpus → Bool → String → Tree → Option ℕ → Outcome (Policy lib)
  unfolding collect_nodes
  policy_of gpus memory_topology resource_priority t none = panic
  policy_of gpus memory_topology resource_priority t (some root) =
      let s =
        collect_nodes (suc (length t.nodes)) (record { nodes = t.nodes; pools = []; node_cnt = 0 })
          root in
      ok (record {
        gpus = gpus;
        nodes = s.nodes;
        free = t.free;
        pools = s.pools;
        root = root;
        grants = [];
        enable_memory_topology = memory_topology;
        resource_priority = resource_priority;
      })

  -- The policy that `buildResourcePoolsByTopology` leaves
  unfoldable pub build_resource_pools_by_topology :
      Gpus → Bool → String → Hardware → Bool → Outcome (Policy lib)
  unfolding policy_of build_nodes
  build_resource_pools_by_topology gpus memory_topology resource_priority hw cluster_affinity =
      build_nodes hw cluster_affinity >>= λ t.
      policy_of gpus memory_topology resource_priority t t.root

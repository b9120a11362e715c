-- ===== src/TopologyAware/Tree.antt =====
-- node_types.go, node_base.go and node_impl.go: the tree of topology nodes. A node is named by its
-- place in the policy's list of nodes, in the order of creation, and `none` is the nil node. What a
-- node has granted (`freeResource`) is kept beside the list, in a function from places to supplies.
use cloud_native.Prelude.{
  ℕ, zero, suc, ◌-◌, ◌^◌, ◌<◌, Bool, false, ◌||◌, Option, none, some, List, [], ◌∷◌, ◌++◌, ◌==◌,
  get_elem?, ◌≡◌,
}
use cloud_native.TopologyAware.CpuSets.{CpuSetLib}
use cloud_native.TopologyAware.Supply.{MemInfo, Supply}

pub data NodeKind : Type 0 where
  nil_node unknown_node numa_node cluster_node socket_node virtual_node : NodeKind

module _ (lib : CpuSetLib) where
  -- The fields of the concrete node types, side by side: `numa_node_id` is that of a NUMA node, and
  -- `mem_info` is not used at a cluster.
  pub record Node : Type 0 where
    pub id : ℕ
    pub kind : NodeKind
    pub depth : ℕ
    pub parent : Option ℕ
    pub children : List ℕ
    pub numa_node_id : ℕ
    pub mem_info : MemInfo lib

  abbrev pub Nodes : Type 0
  Nodes = List Node

  abbrev pub Free : Type 0
  Free = ℕ → Supply lib

  parent_field : Option Node → Option ℕ
  parent_field none = none
  parent_field (some n) = n.parent

  unfoldable pub parent_of : Nodes → ℕ → Option ℕ
  unfolding parent_field
  parent_of nodes r = parent_field (get_elem? nodes r)

  id_field : Option Node → ℕ
  id_field none = 2 ^ 64 - 1
  id_field (some n) = n.id

  -- `NodeID`, -1 at the nil node
  unfoldable pub node_id : Nodes → ℕ → ℕ
  unfolding id_field
  node_id nodes r = id_field (get_elem? nodes r)

  depth_field : Option Node → ℕ
  depth_field none = 2 ^ 64 - 1
  depth_field (some n) = n.depth

  -- `RootDistance`, -1 at the nil node
  unfoldable pub root_distance : Nodes → ℕ → ℕ
  unfolding depth_field
  root_distance nodes r = depth_field (get_elem? nodes r)

  -- The methods `GetNUMAIDs`, with the calls on other nodes as an argument.
  concat_ids : (ℕ → List ℕ) → List ℕ → List ℕ
  concat_ids rec [] = []
  concat_ids rec (c ∷ cs) = rec c ++ concat_ids rec cs

  parent_ids : (ℕ → List ℕ) → Option ℕ → List ℕ
  parent_ids rec none = []
  parent_ids rec (some p) = rec p

  ids_by_kind : (ℕ → List ℕ) → Node → NodeKind → List ℕ
  unfolding concat_ids parent_ids
  ids_by_kind rec n NodeKind.numa_node = n.numa_node_id ∷ []
  ids_by_kind rec n NodeKind.cluster_node = parent_ids rec n.parent
  ids_by_kind rec n NodeKind.socket_node = concat_ids rec n.children
  ids_by_kind rec n NodeKind.virtual_node = concat_ids rec n.children
  ids_by_kind rec n NodeKind.nil_node = []
  ids_by_kind rec n NodeKind.unknown_node = []

  ids_of : (ℕ → List ℕ) → Option Node → List ℕ
  unfolding ids_by_kind
  ids_of rec none = []
  ids_of rec (some n) = ids_by_kind rec n n.kind

  -- A call goes down from a root over sockets to NUMA nodes, or up from a cluster to its NUMA node:
  -- three levels, so `get_numa_ids` gives it more fuel than it needs.
  unfoldable pub numa_ids_in : ℕ → Nodes → ℕ → List ℕ
  unfolding ids_of
  numa_ids_in zero nodes r = []
  numa_ids_in (suc fuel) nodes r = ids_of (λ c. numa_ids_in fuel nodes c) (get_elem? nodes r)

  unfoldable pub get_numa_ids : Nodes → ℕ → List ℕ
  unfolding numa_ids_in
  get_numa_ids nodes r = numa_ids_in 4 nodes r

  -- `MemoryInfo`: a cluster asks its parent, a NUMA node in every tree that the builder makes.
  info_by_kind : (ℕ → Option (MemInfo lib)) → Node → NodeKind → Option (MemInfo lib)
  info_by_kind rec n NodeKind.numa_node = some n.mem_info
  info_by_kind rec n NodeKind.socket_node = some n.mem_info
  info_by_kind rec n NodeKind.virtual_node = some n.mem_info
  info_by_kind rec n NodeKind.cluster_node = elim n.parent [ none ↦ none | some p ↦ rec p ]
  info_by_kind rec n NodeKind.nil_node = none
  info_by_kind rec n NodeKind.unknown_node = none

  info_of : (ℕ → Option (MemInfo lib)) → Option Node → Option (MemInfo lib)
  unfolding info_by_kind
  info_of rec none = none
  info_of rec (some n) = info_by_kind rec n n.kind

  unfoldable pub memory_info_in : ℕ → Nodes → ℕ → Option (MemInfo lib)
  unfolding info_of
  memory_info_in zero nodes r = none
  memory_info_in (suc fuel) nodes r = info_of (λ c. memory_info_in fuel nodes c) (get_elem? nodes r)

  unfoldable pub memory_info : Nodes → ℕ → Option (MemInfo lib)
  unfolding memory_info_in
  memory_info nodes r = memory_info_in 4 nodes r

  -- A parent is created before its children.
  pub record IsOrdered (nodes : Nodes) : Type 0 where
    pub parent_lt : (r p : ℕ) → parent_of nodes r ≡ some p → p < r

  -- The node `a` is `r` or above it, where `r` has at most `fuel` nodes on its way up.
  unfoldable pub on_chain : ℕ → Nodes → Option ℕ → ℕ → Bool
  on_chain zero nodes r a = false
  on_chain (suc fuel) nodes none a = false
  on_chain (suc fuel) nodes (some r) a = r == a || on_chain fuel nodes (parent_of nodes r) a

  -- The node `a` is `r` or above it. In an ordered list the way up has at most `suc r` nodes.
  unfoldable pub covers : Nodes → ℕ → ℕ → Bool
  unfolding on_chain
  covers nodes a r = on_chain (suc r) nodes (some r) a

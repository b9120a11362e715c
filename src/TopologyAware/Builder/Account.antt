-- ===== src/TopologyAware/Builder/Account.antt =====
-- The policy that topology_builder.go builds starts with right books.
use cloud_native.Prelude.{
  ℕ, zero, suc, Bool, String, Option, none, some, List, [], ◌∷◌, ◌≡◌, refl, sym, ◌∙◌, subst, arith,
  get_elem?, length,
}
use cloud_native.TopologyAware.Outcome.{ok, >>=-eq-ok}
use cloud_native.TopologyAware.CpuSets.{CpuSetLib}
use cloud_native.TopologyAware.Tree.{Nodes, parent_of}
use cloud_native.TopologyAware.Policy.{Gpus, Policy}
use cloud_native.TopologyAware.Hooks.Booked.{total, booked}
use cloud_native.TopologyAware.Hooks.Account.{IsAccounted}
use cloud_native.TopologyAware.Builder.{
  Hardware, Tree, Pools, set_node_id, children_field, collect_children, collect_nodes, policy_of,
  build_nodes, build_resource_pools_by_topology,
}
use cloud_native.TopologyAware.Builder.Settled.{IsUnused, IsFresh, build_nodes-IsFresh}

module _ (lib : CpuSetLib) where
  parent_of-set_node_id :
      (nodes : Nodes lib) (place id r : ℕ)
      → parent_of lib (set_node_id lib nodes place id) r ≡ parent_of lib nodes r
  unfolding set_node_id parent_of
  parent_of-set_node_id [] place id r = refl
  parent_of-set_node_id (n ∷ nodes) zero id zero = refl
  parent_of-set_node_id (n ∷ nodes) zero id (suc r) = refl
  parent_of-set_node_id (n ∷ nodes) (suc place) id zero = refl
  parent_of-set_node_id (n ∷ nodes) (suc place) id (suc r) = parent_of-set_node_id nodes place id r

  parent_of-collect_children :
      (collect : Pools lib → ℕ → Pools lib) (children : List ℕ) (s : Pools lib) (r : ℕ)
      → ((s : Pools lib) (c : ℕ) → parent_of lib (collect s c).nodes r ≡ parent_of lib s.nodes r)
      → parent_of lib (collect_children lib collect s children).nodes r ≡ parent_of lib s.nodes r
  unfolding collect_children
  parent_of-collect_children collect [] s r keeps = refl
  parent_of-collect_children collect (c ∷ children) s r keeps =
      parent_of-collect_children collect children (collect s c) r keeps ∙ keeps s c

  parent_of-collect_nodes :
      (fuel : ℕ) (s : Pools lib) (place r : ℕ)
      → parent_of lib (collect_nodes lib fuel s place).nodes r ≡ parent_of lib s.nodes r
  unfolding collect_nodes
  parent_of-collect_nodes zero s place r = refl
  parent_of-collect_nodes (suc fuel) s place r =
      parent_of-collect_children (λ s child. collect_nodes lib fuel s child)
        (children_field lib (get_elem? s.nodes place)) _ r
        (λ s child. parent_of-collect_nodes fuel s child r)
      ∙ parent_of-set_node_id s.nodes place s.node_cnt r

  -- The books are right, no grant is held, and no supply has granted anything.
  abbrev pub IsInitial : Policy lib → Type 0
  IsInitial p = IsAccounted lib p × (p.grants ≡ []) × ((a : ℕ) → IsUnused lib a (p.free a))

  policy_of-IsInitial :
      (gpus : Gpus) (memory_topology : Bool) (resource_priority : String) (t : Tree lib)
      (root : Option ℕ) {p : Policy lib}
      → IsFresh lib t
      → policy_of lib gpus memory_topology resource_priority t root ≡ ok p
      → IsInitial p
  unfolding policy_of total booked
  policy_of-IsInitial gpus memory_topology resource_priority t none w h = cc
  policy_of-IsInitial gpus memory_topology resource_priority t (some root) {p} w h =
      let s0 : Pools lib = record { nodes = t.nodes; pools = []; node_cnt = 0 } in
      let start : Policy lib = record {
        gpus = gpus;
        nodes = (collect_nodes lib (suc (length t.nodes)) s0 root).nodes;
        free = t.free;
        pools = (collect_nodes lib (suc (length t.nodes)) s0 root).pools;
        root = root;
        grants = [];
        enable_memory_topology = memory_topology;
        resource_priority = resource_priority;
      } in
      let e : start ≡ p = cc in
      let w_start : IsAccounted lib start = record {
        ordered = record {
          parent_lt = λ r q k.
              w.ordered.parent_lt r q
                (sym (parent_of-collect_nodes (suc (length t.nodes)) s0 root r) ∙ k);
        };
        named = λ a. (w.unused a).named;
        distinct = _;
        light = record {
          shared = omega arith;
          by_request = omega arith;
          by_limit = omega arith;
          memory = omega arith;
        };
        supplies = λ a. record {
          shared = (w.unused a).shared;
          by_request = (w.unused a).by_request;
          by_limit = (w.unused a).by_limit;
          memory = (w.unused a).memory;
        };
      } in
      subst IsInitial e (w_start, refl, w.unused)

  -- Whatever the hardware, a policy that buildResourcePoolsByTopology builds starts with right
  -- books: each parent stands before its children, each supply names its node, no grant is held and
  -- nothing is granted.
  pub build_resource_pools_by_topology-IsInitial :
      (gpus : Gpus) (memory_topology : Bool) (resource_priority : String) (hw : Hardware lib)
      (cluster_affinity : Bool) {p : Policy lib}
      → build_resource_pools_by_topology lib gpus memory_topology resource_priority hw
          cluster_affinity
        ≡ ok p
      → IsInitial p
  unfolding build_resource_pools_by_topology
  build_resource_pools_by_topology-IsInitial gpus memory_topology resource_priority hw
        cluster_affinity h =
      let (t, made, rest) =
        >>=-eq-ok (build_nodes lib hw cluster_affinity)
          (λ t. policy_of lib gpus memory_topology resource_priority t t.root) h in
      policy_of-IsInitial gpus memory_topology resource_priority t t.root
        (build_nodes-IsFresh lib hw cluster_affinity made) rest

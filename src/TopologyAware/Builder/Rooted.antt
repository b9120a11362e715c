-- ===== src/TopologyAware/Builder/Rooted.antt =====
-- The root is among the pools that topology_builder.go collects.
use cloud_native.Prelude.{
  ℕ, zero, suc, Bool, true, String, Option, none, some, List, [], ◌∷◌, ◌++◌, ◌≡◌, arith, get_elem?,
  length, ==_iff, subst,
}
use cloud_native.TopologyAware.Outcome.{ok, >>=-eq-ok}
use cloud_native.TopologyAware.CpuSets.{CpuSetLib}
use cloud_native.TopologyAware.Policy.{Gpus, Policy}
use cloud_native.TopologyAware.Filter.{contains}
use cloud_native.TopologyAware.Builder.{
  Hardware, Tree, Pools, children_field, collect_children, collect_nodes, policy_of, build_nodes,
  build_resource_pools_by_topology,
}

contains-append : (xs ys : List ℕ) (x : ℕ) → contains xs x ≡ true → contains (xs ++ ys) x ≡ true
unfolding contains
contains-append [] ys x h = cc
contains-append (y ∷ xs) ys x h = ground (arith, contains-append xs ys x)

contains-snoc : (xs : List ℕ) (x : ℕ) → contains (xs ++ x ∷ []) x ≡ true
unfolding contains
contains-snoc [] x = ground (arith, ==_iff x x)
contains-snoc (y ∷ xs) x = ground (arith, contains-snoc xs x)

module _ (lib : CpuSetLib) where
  contains-collect_children :
      (collect : Pools lib → ℕ → Pools lib) (children : List ℕ) (s : Pools lib) (x : ℕ)
      → ((s : Pools lib) (c : ℕ)
          → contains s.pools x ≡ true
          → contains (collect s c).pools x ≡ true)
      → contains s.pools x ≡ true
      → contains (collect_children lib collect s children).pools x ≡ true
  unfolding collect_children
  contains-collect_children collect [] s x keeps h = h
  contains-collect_children collect (c ∷ children) s x keeps h =
      contains-collect_children collect children (collect s c) x keeps (keeps s c h)

  contains-collect_nodes :
      (fuel : ℕ) (s : Pools lib) (place x : ℕ)
      → contains s.pools x ≡ true
      → contains (collect_nodes lib fuel s place).pools x ≡ true
  unfolding collect_nodes
  contains-collect_nodes zero s place x h = h
  contains-collect_nodes (suc fuel) s place x h =
      contains-collect_children (λ s child. collect_nodes lib fuel s child)
        (children_field lib (get_elem? s.nodes place)) _ x
        (λ s child. contains-collect_nodes fuel s child x)
        (contains-append s.pools (place ∷ []) x h)

  contains-collect_nodes_self :
      (fuel : ℕ) (s : Pools lib) (place : ℕ)
      → contains (collect_nodes lib (suc fuel) s place).pools place ≡ true
  unfolding collect_nodes
  contains-collect_nodes_self fuel s place =
      contains-collect_children (λ s child. collect_nodes lib fuel s child)
        (children_field lib (get_elem? s.nodes place)) _ place
        (λ s child. contains-collect_nodes fuel s child place) (contains-snoc s.pools place)

  policy_of-root :
      (gpus : Gpus) (memory_topology : Bool) (resource_priority : String) (t : Tree lib)
      (root : Option ℕ) {p : Policy lib}
      → policy_of lib gpus memory_topology resource_priority t root ≡ ok p
      → contains p.pools p.root ≡ true
  unfolding policy_of
  policy_of-root gpus memory_topology resource_priority t none h = cc
  policy_of-root gpus memory_topology resource_priority t (some root) {p} h =
      let s0 : Pools lib = record { nodes = t.nodes; pools = []; node_cnt = 0 } in
      let start : Policy lib = record {
        gpus = gpus;
        nodes = (collect_nodes lib (suc (length t.nodes)) s0 root).nodes;
        free = t.free;
        pools = (collect_nodes lib (suc (length t.nodes)) s0 root).pools;
        root = root;
        grants = [];
        enable_memory_topology = memory_topology;
        resource_priority = resource_priority;
      } in
      let e : start ≡ p = cc in
      subst (λ (p : Policy lib). contains p.pools p.root ≡ true) e
        (contains-collect_nodes_self (length t.nodes) s0 root)

  -- The root is among the pools of a policy that buildResourcePoolsByTopology builds, whatever the
  -- hardware.
  pub contains_root-build_resource_pools_by_topology :
      (gpus : Gpus) (memory_topology : Bool) (resource_priority : String) (hw : Hardware lib)
      (cluster_affinity : Bool) {p : Policy lib}
      → build_resource_pools_by_topology lib gpus memory_topology resource_priority hw
          cluster_affinity
        ≡ ok p
      → contains p.pools p.root ≡ true
  unfolding build_resource_pools_by_topology
  contains_root-build_resource_pools_by_topology gpus memory_topology resource_priority hw
        cluster_affinity h =
      let (t, made, rest) =
        >>=-eq-ok (build_nodes lib hw cluster_affinity)
          (λ t. policy_of lib gpus memory_topology resource_priority t t.root) h in
      policy_of-root gpus memory_topology resource_priority t t.root rest

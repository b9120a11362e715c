-- ===== src/TopologyAware/Policy.antt =====
-- The state of topology_aware.go, and what the policy tells the nodes when they score a request.
use cloud_native.Prelude.{ℕ, suc, Bool, String, Option, List, [], ◌∷◌, ◌==◌, if◌then◌else◌}
use cloud_native.TopologyAware.CpuSets.{CpuSetLib}
use cloud_native.TopologyAware.Request.{Request}
use cloud_native.TopologyAware.Supply.{Grant, Score, ScoreContext, get_score}
use cloud_native.TopologyAware.Tree.{Nodes, Free, node_id, get_numa_ids}

-- What the policy asks `system.System` about accelerators: `gpu` gives the NUMA node of a device, and
-- `node_gpus` the number of devices at a NUMA node.
pub record Gpus : Type 0 where
  pub gpu_ids : List ℕ
  pub gpu : ℕ → Option ℕ
  pub node_gpus : ℕ → ℕ

module _ (lib : CpuSetLib) where
  -- The policy after `initialize`. The grants are a `sync.Map` from the container's key.
  pub record Policy : Type 0 where
    pub gpus : Gpus
    pub nodes : Nodes lib
    pub free : Free lib
    pub pools : List ℕ
    pub root : ℕ
    pub grants : List (String × Grant)
    pub enable_memory_topology : Bool
    pub resource_priority : String

  unfoldable pub count_at : Nodes lib → ℕ → List (String × Grant) → ℕ
  count_at nodes id [] = 0
  count_at nodes id ((gid, g) ∷ grants) =
      let rest = count_at nodes id grants in
      if node_id lib nodes g.node == id then suc rest else rest

  unfoldable pub count_colocation : Policy → ℕ → ℕ
  unfolding count_at
  count_colocation p id = count_at p.nodes id p.grants

  abbrev pub score_context : Policy → ScoreContext
  score_context p = record {
    count_colocation = λ id. count_colocation p id;
    count_node_gpus = λ numa. p.gpus.node_gpus numa;
  }

  -- `pool.FreeResource().GetScore(request, p)`; the supply of a node names the node.
  unfoldable pub score_of : Policy → Request → ℕ → Score
  unfolding get_score count_colocation
  score_of p req r =
      let s = p.free r in
      get_score lib s req (score_context p) (node_id lib p.nodes s.node)
        (get_numa_ids lib p.nodes s.node)

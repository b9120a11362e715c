-- ===== src/TopologyAware/Sorter/Key.antt =====
-- compareNodes of pool_sorter.go as the lexicographic order of a key of seven numbers.
use cloud_native.Prelude.{
  ℕ, ◌+◌, ◌-◌, ◌%◌, ◌^◌, true, false, some, List, [], ◌∷◌, ◌≡◌, arith, ltb, str_eq, if◌then◌else◌,
}
use cloud_native.Word64.{is_neg}
use cloud_native.TopologyAware.CpuSets.{CpuSetLib}
use cloud_native.TopologyAware.Request.{Request}
use cloud_native.TopologyAware.Supply.{Score, allocatable_shared_cpu}
use cloud_native.TopologyAware.Tree.{node_id, root_distance}
use cloud_native.TopologyAware.Policy.{Policy, score_of}
use cloud_native.TopologyAware.Sorter.{
  Verdict, lookup_score, gpu_first, affinity_of, compare_resource_capacity, compare_depth,
  compare_shared_capacity, compare_colocated, compare_gpu_affinity, compare_cpu_capacity,
  apply_resource_priority_strategy, compare_scored, compare_nodes,
}
use cloud_native.TopologyAware.Sorter.Lex.{lex_lt}

-- The place of an `int` among all, from the least, and from the greatest; the latter for an int32 too.
abbrev pub asc : ℕ → ℕ
asc x = (x + 2 ^ 63) % 2 ^ 64

abbrev pub desc : ℕ → ℕ
desc x = 2 ^ 64 - 1 - asc x

abbrev pub desc32 : ℕ → ℕ
desc32 x = 2 ^ 32 - 1 - (x + 2 ^ 31) % 2 ^ 32

-- The verdict by two ranks, the lower one first
abbrev three : ℕ → ℕ → Verdict
three x y = if ltb x y then (true, true) else if ltb y x then (false, true) else (false, false)

module _ (lib : CpuSetLib) (p : Policy lib) (req : Request) (affinity : List (ℕ × ℕ)) where
  pub gpu_rank : ℕ → ℕ
  gpu_rank r = if req.has_gpu_request then desc32 (affinity_of lib p affinity r) else 0

  pub cpu_rank : ℕ → ℕ
  cpu_rank r = desc (allocatable_shared_cpu lib (p.free r))

  pub capacity_rank : ℕ → ℕ
  capacity_rank r = if is_neg (score_of lib p req r).shared then 1 else 0

  -- Room for the limit first, then the depth, the room, the neighbours, the two resources in the order
  -- of the policy, and the number of the node.
  unfoldable pub key : ℕ → List ℕ
  key r =
      capacity_rank r
      ∷ desc (root_distance lib p.nodes r)
      ∷ desc (score_of lib p req r).shared
      ∷ asc (score_of lib p req r).colocated
      ∷ (if str_eq p.resource_priority gpu_first then gpu_rank r else cpu_rank r)
      ∷ (if str_eq p.resource_priority gpu_first then cpu_rank r else gpu_rank r)
      ∷ asc (node_id lib p.nodes r)
      ∷ []

  capacity-three :
      (a b : ℕ)
      → compare_resource_capacity lib p req a b ≡ three (capacity_rank a) (capacity_rank b)
  unfolding compare_resource_capacity capacity_rank
  capacity-three a b = ground arith

  depth-three :
      (a b : ℕ)
      → compare_depth lib p a b
        ≡ three (desc (root_distance lib p.nodes a)) (desc (root_distance lib p.nodes b))
  unfolding compare_depth
  depth-three a b = ground arith

  shared-three : (s t : Score) → compare_shared_capacity s t ≡ three (desc s.shared) (desc t.shared)
  unfolding compare_shared_capacity
  shared-three s t = ground arith

  colocated-three :
      (s t : Score) → compare_colocated s t ≡ three (asc s.colocated) (asc t.colocated)
  unfolding compare_colocated
  colocated-three s t = ground arith

  gpu-three :
      (a b : ℕ) → compare_gpu_affinity lib p req affinity a b ≡ three (gpu_rank a) (gpu_rank b)
  unfolding compare_gpu_affinity gpu_rank
  gpu-three a b = ground arith

  cpu-three : (a b : ℕ) → compare_cpu_capacity lib p a b ≡ three (cpu_rank a) (cpu_rank b)
  unfolding compare_cpu_capacity cpu_rank
  cpu-three a b = ground arith

  -- compareNodes, on two pools whose scores are in the map, is the lexicographic order of a key of
  -- seven numbers: room for the limit, depth, shared capacity, colocated containers, the two
  -- resources in the order of the policy's priority, and the number of the node.
  pub compare_nodes-eq-lex_lt :
      (scores : List (ℕ × Score)) (a b : ℕ)
      → lookup_score (node_id lib p.nodes a) scores ≡ some (score_of lib p req a)
      → lookup_score (node_id lib p.nodes b) scores ≡ some (score_of lib p req b)
      → compare_nodes lib p req scores affinity a b ≡ lex_lt (key a) (key b)
  unfolding compare_nodes key lex_lt apply_resource_priority_strategy
  compare_nodes-eq-lex_lt scores a b ea eb =
      rw (ea, eb, compare_scored)
        (simp (capacity-three, depth-three, shared-three, colocated-three, gpu-three, cpu-three)
          (ground arith))

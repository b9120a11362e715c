-- ===== src/TopologyAware/Sorter.antt =====
-- pool_sorter.go: the order in which pools are preferred for a request.
pub mod Key
pub mod Lex
pub mod Sorted
pub mod Order
use cloud_native.Prelude.{
  ℕ, ◌+◌, ◌*◌, ◌%◌, ◌^◌, Bool, true, false, ◌&&◌, not, String, Option, none, some, List, [], ◌∷◌,
  ltb, ◌==◌, str_eq, if◌then◌else◌,
}
use cloud_native.Word64.{is_neg, slt, slt32}
use cloud_native.TopologyAware.CpuSets.{CpuSetLib}
use cloud_native.TopologyAware.Request.{Request}
use cloud_native.TopologyAware.Supply.{Score, allocatable_shared_cpu}
use cloud_native.TopologyAware.Tree.{node_id, root_distance, get_numa_ids}
use cloud_native.TopologyAware.Policy.{Policy, score_of}
use cloud_native.TopologyAware.Filter.{weight_at}

-- int32, as `Word64` has `int`
abbrev pub add32 : ℕ → ℕ → ℕ
add32 a b = (a + b) % 2 ^ 32

-- `result, done`
abbrev pub Verdict : Type 0
Verdict = Bool × Bool

-- `if result, done := v; done { return result }`, and the rest
abbrev pub or_next {ℓ} : {A : Type ℓ} → Verdict → (Bool → A) → A → A
or_next (result, done) f next = if done then f result else next

later_or : Option Score → Option Score → Option Score
later_or none o = o
later_or (some s) o = some s

-- `scores[id]`, where a later write has replaced an earlier one
unfoldable pub lookup_score : ℕ → List (ℕ × Score) → Option Score
unfolding later_or
lookup_score id [] = none
lookup_score id ((k, s) ∷ m) = later_or (lookup_score id m) (if k == id then some s else none)

abbrev pub gpu_first : String
gpu_first = "gpu-first"

-- The weight of a pool: on every pass, `int32` sums over the NUMA nodes of the pool.
unfoldable pub pool_affinity : Bool → List (ℕ × ℕ) → List ℕ → ℕ → ℕ
unfolding weight_at
pool_affinity enhance affinity [] acc = acc
pool_affinity enhance affinity (numa ∷ numas) acc =
    let base = weight_at affinity numa in
    pool_affinity enhance affinity numas
      (if enhance && slt32 0 base then add32 acc (base * 100 % 2 ^ 32) else add32 acc base)

unfoldable pub compare_shared_capacity : Score → Score → Verdict
compare_shared_capacity score1 score2 =
    if slt score2.shared score1.shared
    then (true, true)
    else if slt score1.shared score2.shared
    then (false, true)
    else (false, false)

unfoldable pub compare_colocated : Score → Score → Verdict
compare_colocated score1 score2 =
    if slt score1.colocated score2.colocated
    then (true, true)
    else if slt score2.colocated score1.colocated
    then (false, true)
    else (false, false)

module _ (lib : CpuSetLib) where
  unfoldable pub compare_resource_capacity : Policy lib → Request → ℕ → ℕ → Verdict
  compare_resource_capacity p req node1 node2 =
      let capacity1 = (score_of lib p req node1).shared in
      let capacity2 = (score_of lib p req node2).shared in
      if not (is_neg capacity1) && is_neg capacity2
      then (true, true)
      else if is_neg capacity1 && not (is_neg capacity2)
      then (false, true)
      else (false, false)

  unfoldable pub compare_depth : Policy lib → ℕ → ℕ → Verdict
  compare_depth p node1 node2 =
      let depth1 = root_distance lib p.nodes node1 in
      let depth2 = root_distance lib p.nodes node2 in
      if slt depth2 depth1
      then (true, true)
      else if slt depth1 depth2
      then (false, true)
      else (false, false)

  unfoldable pub affinity_of : Policy lib → List (ℕ × ℕ) → ℕ → ℕ
  unfolding pool_affinity
  affinity_of p affinity r =
      pool_affinity (str_eq p.resource_priority gpu_first) affinity
        (get_numa_ids lib p.nodes (p.free r).node) 0

  unfoldable pub compare_gpu_affinity : Policy lib → Request → List (ℕ × ℕ) → ℕ → ℕ → Verdict
  compare_gpu_affinity p req affinity node1 node2 =
      let affinity1 = affinity_of p affinity node1 in
      let affinity2 = affinity_of p affinity node2 in
      if not req.has_gpu_request
      then (false, false)
      else if slt32 affinity2 affinity1
      then (true, true)
      else if slt32 affinity1 affinity2
      then (false, true)
      else (false, false)

  unfoldable pub compare_cpu_capacity : Policy lib → ℕ → ℕ → Verdict
  compare_cpu_capacity p node1 node2 =
      let capacity1 = allocatable_shared_cpu lib (p.free node1) in
      let capacity2 = allocatable_shared_cpu lib (p.free node2) in
      if slt capacity2 capacity1
      then (true, true)
      else if slt capacity1 capacity2
      then (false, true)
      else (false, false)

  -- "cpu-first" and every other text take the second branch.
  unfoldable pub apply_resource_priority_strategy :
      Policy lib → Request → List (ℕ × ℕ) → ℕ → ℕ → Verdict
  apply_resource_priority_strategy p req affinity node1 node2 =
      let by_gpu = compare_gpu_affinity p req affinity node1 node2 in
      let by_cpu = compare_cpu_capacity p node1 node2 in
      if str_eq p.resource_priority gpu_first
      then or_next by_gpu (λ r. (r, true)) (or_next by_cpu (λ r. (r, true)) (false, false))
      else or_next by_cpu (λ r. (r, true)) (or_next by_gpu (λ r. (r, true)) (false, false))

  compare_scored : Policy lib → Request → List (ℕ × ℕ) → Option Score → Option Score → ℕ → ℕ → Bool
  compare_scored p req affinity (some score1) (some score2) node1 node2 =
      or_next (compare_resource_capacity p req node1 node2) (λ r. r)
        (or_next (compare_depth p node1 node2) (λ r. r)
          (or_next (compare_shared_capacity score1 score2) (λ r. r)
            (or_next (compare_colocated score1 score2) (λ r. r)
              (or_next (apply_resource_priority_strategy p req affinity node1 node2) (λ r. r)
                (slt (node_id lib p.nodes node1) (node_id lib p.nodes node2))))))
  compare_scored p req affinity _ _ node1 node2 = false

  unfoldable pub compare_nodes :
      Policy lib → Request → List (ℕ × Score) → List (ℕ × ℕ) → ℕ → ℕ → Bool
  unfolding compare_scored lookup_score
  compare_nodes p req scores affinity node1 node2 =
      compare_scored p req affinity (lookup_score (node_id lib p.nodes node1) scores)
        (lookup_score (node_id lib p.nodes node2) scores) node1 node2

  -- The scores of all pools; `GetScore` of a node is that of its free resource.
  unfoldable pub score_map : Policy lib → Request → List ℕ → List (ℕ × Score)
  score_map p req [] = []
  score_map p req (pool ∷ pools) =
      (node_id lib p.nodes pool, score_of lib p req pool) ∷ score_map p req pools

insert_by : (ℕ → ℕ → Bool) → ℕ → List ℕ → List ℕ
insert_by less x [] = x ∷ []
insert_by less x (y ∷ ys) =
    let rest = insert_by less x ys in if less y x then y ∷ rest else x ∷ y ∷ ys

-- `sort.Slice`, as insertion. A strict total order has one sorted arrangement, so the algorithm and
-- its stability do not matter.
unfoldable pub sort_slice : (ℕ → ℕ → Bool) → List ℕ → List ℕ
unfolding insert_by
sort_slice less [] = []
sort_slice less (x ∷ xs) = insert_by less x (sort_slice less xs)

module _ (lib : CpuSetLib) where
  unfoldable pub sort_pools_by_score : Policy lib → Request → List (ℕ × ℕ) → List ℕ → List ℕ
  unfolding sort_slice
  sort_pools_by_score p req affinity pools =
      sort_slice (compare_nodes lib p req (score_map lib p req pools) affinity) pools

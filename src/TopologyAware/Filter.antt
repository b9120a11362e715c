-- ===== src/TopologyAware/Filter.antt =====
-- pool_filter.go: which pools can take a request, and which of them it gets.
pub mod Climb
pub mod Deepest
use cloud_native.Prelude.{
  ℕ, zero, suc, ◌+◌, ◌-◌, ◌*◌, ◌/◌, ◌%◌, ◌^◌, Bool, true, false, not, ◌&&◌, ◌||◌, String, Option,
  none, some, List, [], ◌∷◌, ◌++◌, ltb, ◌==◌, str_eq, if◌then◌else◌,
}
use cloud_native.Word64.{is_neg, slt, sdiv}
use cloud_native.TopologyAware.CpuSets.{CpuSetLib}
use cloud_native.TopologyAware.Request.{Request}
use cloud_native.TopologyAware.Request.Devices.{Text, is_empty}
use cloud_native.TopologyAware.Supply.{Score}
use cloud_native.TopologyAware.Tree.{parent_of, root_distance, get_numa_ids}
use cloud_native.TopologyAware.Policy.{Policy, Gpus, score_of}

-- `fmt.Sprintf("%d", n)`: at most 20 digits for a number below 2 ^ 64
digits : ℕ → ℕ → Text
digits zero n = []
digits (suc fuel) n =
    let more = digits fuel (n / 10) in
    if ltb n 10 then (b'0' + n) ∷ [] else more ++ (b'0' + n % 10) ∷ []

unfoldable pub print_int : ℕ → Text
unfolding digits
print_int n = if is_neg n then b'-' ∷ digits 20 (2 ^ 64 - n) else digits 20 n

unfoldable pub text_eq : Text → Text → Bool
text_eq [] [] = true
text_eq [] (d ∷ t) = false
text_eq (c ∷ s) [] = false
text_eq (c ∷ s) (d ∷ t) = let rest = text_eq s t in if c == d then rest else false

-- `m[key]` of a map to integers, 0 where there is no entry
unfoldable pub weight_at : List (ℕ × ℕ) → ℕ → ℕ
weight_at [] key = 0
weight_at ((k, v) ∷ m) key = let rest = weight_at m key in if k == key then v else rest

-- `m[key]++`
unfoldable pub increment : List (ℕ × ℕ) → ℕ → List (ℕ × ℕ)
increment [] key = (key, 1) ∷ []
increment ((k, v) ∷ m) key =
    let rest = increment m key in if k == key then (k, v + 1) ∷ m else (k, v) ∷ rest

unfoldable pub contains : List ℕ → ℕ → Bool
contains [] x = false
contains (y ∷ ys) x = y == x || contains ys x

-- For each requested id that names the device, the device's NUMA node: the inner loop over the
-- requested ids.
unfoldable pub matches_of : Text → ℕ → List Text → List ℕ
unfolding text_eq
matches_of gpu_id_str numa [] = []
matches_of gpu_id_str numa (requested ∷ ids) =
    let rest = matches_of gpu_id_str numa ids in
    if text_eq gpu_id_str requested then numa ∷ rest else rest

matches_at : Text → Option ℕ → List Text → List ℕ
unfolding matches_of
matches_at gpu_id_str none ids = []
matches_at gpu_id_str (some numa) ids = matches_of gpu_id_str numa ids

-- The NUMA nodes of all matches, in the order in which the two loops meet them.
unfoldable pub matched_numa_nodes : (ℕ → Option ℕ) → List ℕ → List Text → List ℕ
unfolding matches_at print_int
matched_numa_nodes gpu [] requested = []
matched_numa_nodes gpu (gpu_id ∷ ids) requested =
    matches_at (print_int gpu_id) (gpu gpu_id) requested ++ matched_numa_nodes gpu ids requested

count_weights : List ℕ → List (ℕ × ℕ) → List (ℕ × ℕ)
unfolding increment
count_weights [] weights = weights
count_weights (numa ∷ numas) weights = count_weights numas (increment weights numa)

-- `affinity[numaID] += int32(weight * 100)` on an empty map
scale_weights : List (ℕ × ℕ) → List (ℕ × ℕ)
scale_weights [] = []
scale_weights ((numa, weight) ∷ m) = (numa, (weight * 100) % 2 ^ 32) ∷ scale_weights m

unfoldable pub calculate_gpu_numa_affinity : List ℕ → List (ℕ × ℕ)
calculate_gpu_numa_affinity [] = []
calculate_gpu_numa_affinity (numa ∷ numas) = (numa, 1000) ∷ calculate_gpu_numa_affinity numas

unfoldable pub is_pool_in_gpu_numa_nodes : List ℕ → List ℕ → Bool
unfolding contains
is_pool_in_gpu_numa_nodes [] gpu_numa = false
is_pool_in_gpu_numa_nodes (numa ∷ numas) gpu_numa =
    contains gpu_numa numa || is_pool_in_gpu_numa_nodes numas gpu_numa

module _ (lib : CpuSetLib) where
  -- The loop of `checkCapacityByRequest`. Above the root stands the nil node, whose free resource is
  -- nil.
  unfoldable pub check_request_from : ℕ → Policy lib → Request → Option ℕ → Bool
  check_request_from zero p req pool = false
  check_request_from (suc fuel) p req none = false
  check_request_from (suc fuel) p req (some r) =
      let rest = check_request_from fuel p req (parent_of lib p.nodes r) in
      if r == p.root
      then true
      else if is_neg (score_of lib p req r).shared_by_request
      then false
      else rest

  -- The fuel is enough where a parent stands before its children.
  unfoldable pub check_capacity_by_request : Policy lib → Request → ℕ → Bool
  unfolding check_request_from
  check_capacity_by_request p req pool = check_request_from (suc pool) p req (some pool)

  unfoldable pub check_memory_from : ℕ → Policy lib → Request → ℕ → Option ℕ → Bool
  check_memory_from zero p req limit_kb pool = false
  check_memory_from (suc fuel) p req limit_kb none = false
  check_memory_from (suc fuel) p req limit_kb (some r) =
      let rest = check_memory_from fuel p req limit_kb (parent_of lib p.nodes r) in
      if r == p.root
      then true
      else if ltb (score_of lib p req r).memory_capacity limit_kb
      then false
      else rest

  unfoldable pub check_memory_capacity : Policy lib → Request → ℕ → Bool
  unfolding check_memory_from
  check_memory_capacity p req pool =
      let limit_kb = sdiv req.mem_limit 1024 in
      if limit_kb == 0 then true else check_memory_from (suc pool) p req limit_kb (some pool)

  unfoldable pub has_capacity : Policy lib → Request → ℕ → Bool
  unfolding check_capacity_by_request check_memory_capacity
  has_capacity p req pool =
      if not (check_capacity_by_request p req pool)
      then false
      else if p.enable_memory_topology && not (check_memory_capacity p req pool)
      then false
      else true

  -- The loop of `filterPoolsByCapacity`, which passes over the root.
  unfoldable pub pools_with_capacity : Policy lib → Request → List ℕ → List ℕ
  pools_with_capacity p req [] = []
  pools_with_capacity p req (pool ∷ pools) =
      let rest = pools_with_capacity p req pools in
      if pool == p.root then rest else if has_capacity p req pool then pool ∷ rest else rest

  unfoldable pub filter_pools_by_capacity : Policy lib → Request → List ℕ
  unfolding pools_with_capacity contains
  filter_pools_by_capacity p req =
      let filtered = pools_with_capacity p req p.pools in
      if is_empty filtered && contains p.pools p.root then p.root ∷ [] else filtered

  -- The loop of `findRegularPool`: the best pool so far and its depth.
  unfoldable pub deepest_from : Policy lib → Request → Option ℕ → ℕ → List ℕ → Option ℕ
  deepest_from p req best max_depth [] = best
  deepest_from p req best max_depth (pool ∷ pools) =
      let deeper = has_capacity p req pool && slt max_depth (root_distance lib p.nodes pool) in
      deepest_from p req (if deeper then some pool else best)
        (if deeper then root_distance lib p.nodes pool else max_depth) pools

  -- The depth starts at -1.
  unfoldable pub find_regular_pool : Policy lib → Request → List ℕ → Option ℕ
  unfolding deepest_from
  find_regular_pool p req pools = deepest_from p req none (2 ^ 64 - 1) pools

  unfoldable pub get_requested_gpu_numa_nodes : Policy lib → Request → List ℕ
  unfolding matched_numa_nodes
  get_requested_gpu_numa_nodes p req =
      matched_numa_nodes p.gpus.gpu p.gpus.gpu_ids req.requested_gpu_devices

  unfoldable pub calculate_specific_gpu_affinity : Policy lib → Request → List (ℕ × ℕ)
  unfolding matched_numa_nodes count_weights scale_weights
  calculate_specific_gpu_affinity p req =
      scale_weights
        (count_weights (matched_numa_nodes p.gpus.gpu p.gpus.gpu_ids req.requested_gpu_devices) [])

  unfoldable pub calculate_pool_affinities : Policy lib → Request → List (ℕ × ℕ)
  unfolding calculate_specific_gpu_affinity
  calculate_pool_affinities p req =
      if not req.has_gpu_request
      then []
      else if is_empty req.requested_gpu_devices
      then []
      else calculate_specific_gpu_affinity p req

-- ===== src/TopologyAware/Selection/Sound.antt =====
-- What the choice of a pool in topology_aware.go and pool_filter.go guarantees to Supply.Allocate.
use cloud_native.Prelude.{
  ℕ, ◌^◌, ◌<◌, true, false, none, some, List, [], ◌∷◌, ◌≡◌, ◌≢◌, inl, inr, refl, sym, ◌∙◌, arith,
  ==_iff, Option-cases,
}
use cloud_native.TopologyAware.Outcome.{ok}
use cloud_native.TopologyAware.Tree.{root_distance}
use cloud_native.TopologyAware.CpuSets.{CpuSetLib}
use cloud_native.TopologyAware.Request.{Request}
use cloud_native.TopologyAware.Policy.{Policy}
use cloud_native.TopologyAware.Filter.{
  contains, has_capacity, filter_pools_by_capacity, calculate_pool_affinities,
  calculate_gpu_numa_affinity, get_requested_gpu_numa_nodes,
}
use cloud_native.TopologyAware.Filter.Deepest.{contains-find_regular_pool, find_regular_pool-none}
use cloud_native.TopologyAware.Sorter.{sort_pools_by_score, compare_nodes, score_map}
use cloud_native.TopologyAware.Sorter.Sorted.{contains-sort_slice}
use cloud_native.TopologyAware.Selection.{
  first_at_gpu, find_gpu_affinity_pool, find_best_available_pool, select_pool,
}
use cloud_native.TopologyAware.Selection.Filtered.{
  not_contained, IsChoice, filter-IsChoice, filter-inhabited, filter-has_capacity,
}

module _ (lib : CpuSetLib) (p : Policy lib) (req : Request) where
  contains-sort_pools_by_score :
      (affinity : List (ℕ × ℕ)) (pools : List ℕ) (r : ℕ)
      → contains (sort_pools_by_score lib p req affinity pools) r ≡ contains pools r
  unfolding sort_pools_by_score
  contains-sort_pools_by_score affinity pools r =
      contains-sort_slice (compare_nodes lib p req (score_map lib p req pools) affinity) pools r

  contains-first_at_gpu :
      (gpu_numa pools : List ℕ) (r : ℕ)
      → first_at_gpu lib p gpu_numa pools ≡ some r
      → contains pools r ≡ true
  unfolding first_at_gpu contains
  contains-first_at_gpu gpu_numa [] r h = cc
  contains-first_at_gpu gpu_numa (x ∷ pools) r h =
      ground (arith, contains-first_at_gpu gpu_numa pools r, ==_iff x r)

  find_gpu-contained :
      (r : ℕ)
      → find_gpu_affinity_pool lib p req ≡ some r
      → contains (filter_pools_by_capacity lib p req) r ≡ true
  unfolding find_gpu_affinity_pool
  find_gpu-contained r h =
      let gpu_numa = get_requested_gpu_numa_nodes lib p req in
      let sorted =
        sort_pools_by_score lib p req (calculate_gpu_numa_affinity gpu_numa)
          (filter_pools_by_capacity lib p req) in
      ground (
        arith,
        contains-first_at_gpu gpu_numa sorted r,
        contains-sort_pools_by_score (calculate_gpu_numa_affinity gpu_numa)
            (filter_pools_by_capacity lib p req) r,
      )

  abbrev sorted_pools : List ℕ
  sorted_pools =
      sort_pools_by_score lib p req (calculate_pool_affinities lib p req)
        (filter_pools_by_capacity lib p req)

  find_best-contained :
      (r : ℕ)
      → find_best_available_pool lib p req sorted_pools ≡ some r
      → contains (filter_pools_by_capacity lib p req) r ≡ true
  unfolding find_best_available_pool
  find_best-contained r h = ground (
    arith,
    find_gpu-contained r,
    contains-find_regular_pool lib p req sorted_pools r,
    contains-sort_pools_by_score (calculate_pool_affinities lib p req)
        (filter_pools_by_capacity lib p req) r,
  )

  select_pool-IsChoice : (r : ℕ) → select_pool lib p req ≡ ok r → IsChoice lib p req r
  unfolding select_pool
  select_pool-IsChoice r h = filter-IsChoice lib p req r (ground (arith, find_best-contained r))

  -- The pool that filtering, sorting and picking choose is one of the policy's pools and has the
  -- capacity for the request, by hasCapacity.
  pub select_pool-fits :
      (r : ℕ)
      → select_pool lib p req ≡ ok r
      → (contains p.pools r ≡ true) × (has_capacity lib p req r ≡ true)
  unfolding select_pool
  select_pool-fits r h = (
    (select_pool-IsChoice r h).0,
    filter-has_capacity lib p req r (ground (arith, find_best-contained r)),
  )

  -- If the choice falls on the root, no other pool has the capacity for the request.
  pub select_pool-root_last :
      (x : ℕ)
      → select_pool lib p req ≡ ok p.root
      → contains p.pools x ≡ true
      → x ≢ p.root
      → has_capacity lib p req x ≡ false
  select_pool-root_last x h i ne = elim (select_pool-IsChoice p.root h).1 [
    | inl (not_root, fits) ↦ absurd (not_root refl)
    | inr (e, others) ↦ others x i ne
  ]

  -- The regular search finds a pool, so the combined search does.
  find_best-some :
      contains p.pools p.root ≡ true
      → ((x : ℕ) → contains p.pools x ≡ true → root_distance lib p.nodes x < 2 ^ 63)
      → find_best_available_pool lib p req sorted_pools ≢ none
  unfolding find_best_available_pool
  find_best-some i low e =
      let (x, h) = filter-inhabited lib p req i in
      let moved =
        contains-sort_pools_by_score (calculate_pool_affinities lib p req)
          (filter_pools_by_capacity lib p req) in
      let none_fits =
        find_regular_pool-none lib p req sorted_pools
          (λ y j. low y (filter-IsChoice lib p req y (sym (moved y) ∙ j)).0) (ground arith) x
          (moved x ∙ h) in
      cc (filter-has_capacity lib p req x h, none_fits)

  -- The choice always returns a pool when the root is among the pools and no pool has a negative
  -- depth.
  pub select_pool-total :
      contains p.pools p.root ≡ true
      → ((x : ℕ) → contains p.pools x ≡ true → root_distance lib p.nodes x < 2 ^ 63)
      → (r : ℕ) × (select_pool lib p req ≡ ok r)
  unfolding select_pool
  select_pool-total i low = elim (Option-cases (find_best_available_pool lib p req sorted_pools)) [
    | inl nothing ↦ absurd (find_best-some i low nothing)
    | inr (r, e) ↦
        let (x, h) = filter-inhabited lib p req i in
        let filtered = filter_pools_by_capacity lib p req in
        (
          r,
          ground (
            arith,
            not_contained lib p req filtered x,
            not_contained lib p req sorted_pools x,
            h,
            e,
            contains-sort_pools_by_score (calculate_pool_affinities lib p req) filtered x,
          ),
        )
  ]

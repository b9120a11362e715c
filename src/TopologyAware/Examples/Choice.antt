-- ===== src/TopologyAware/Examples/Choice.antt =====
-- The theorems about the choice of a pool, on the small machine.
use cloud_native.Prelude.{
  ℕ, ◌<◌, ◌^◌, Bool, true, false, some, none, [], ◌∷◌, ◌≡◌, ◌⊎◌, refl, arith,
}
use cloud_native.TopologyAware.Outcome.{ok}
use cloud_native.TopologyAware.Supply.{
  get_score, total_shared_cpu, allocatable_shared_cpu, allocatable_cpu_by_request,
  allocatable_cpu_by_limit, allocatable_memory,
}
use cloud_native.TopologyAware.Tree.{parent_of, root_distance, node_id}
use cloud_native.TopologyAware.Policy.{score_of}
use cloud_native.TopologyAware.Filter.{
  deepest_from, check_request_from, check_memory_from, find_regular_pool, contains, has_capacity,
  check_capacity_by_request, check_memory_capacity,
}
use cloud_native.TopologyAware.Filter.Deepest.{
  IsDeepest, find_regular_pool-IsDeepest, find_regular_pool-none,
}
use cloud_native.TopologyAware.Sorter.{compare_nodes, lookup_score, score_map, sort_pools_by_score}
use cloud_native.TopologyAware.Sorter.Lex.{lex_lt}
use cloud_native.TopologyAware.Sorter.Key.{key, compare_nodes-eq-lex_lt}
use cloud_native.TopologyAware.Sorter.Sorted.{IsSorted}
use mathlib.Core.List.{Perm}
use cloud_native.TopologyAware.Sorter.Order.{
  IsIdentified, key_lt, sort_pools_by_score-IsSorted, compare_nodes-total,
}
use cloud_native.TopologyAware.Selection.{select_pool}
use cloud_native.TopologyAware.Selection.Sound.{
  select_pool-fits, select_pool-root_last, select_pool-total,
}
use cloud_native.TopologyAware.Examples.{toy_lib, toy_nodes, toy, toy_request, big_request}
use cloud_native.TopologyAware.Examples.Runs.{select_pool-toy, select_pool_big}
use cloud_native.TopologyAware.Examples.Facts.{toy-depths}

select_pool-fits_example :
    (contains toy.pools 3 ≡ true) × (has_capacity toy_lib toy toy_request 3 ≡ true)
select_pool-fits_example = select_pool-fits toy_lib toy toy_request 3 select_pool-toy

select_pool-root_last_example : has_capacity toy_lib toy big_request 4 ≡ false
unfolding contains
select_pool-root_last_example =
    select_pool-root_last toy_lib toy big_request 4 select_pool_big refl (ground arith)

select_pool-total_example : (r : ℕ) × (select_pool toy_lib toy big_request ≡ ok r)
unfolding contains
select_pool-total_example = select_pool-total toy_lib toy big_request refl toy-depths

find_regular_pool-toy : find_regular_pool toy_lib toy toy_request (1 ∷ 3 ∷ []) ≡ some 3
unfolding find_regular_pool deepest_from has_capacity check_capacity_by_request check_request_from
    check_memory_capacity check_memory_from parent_of root_distance score_of get_score
    total_shared_cpu allocatable_shared_cpu allocatable_cpu_by_request allocatable_cpu_by_limit
    allocatable_memory contains
find_regular_pool-toy = refl

find_regular_pool_big : find_regular_pool toy_lib toy big_request (1 ∷ 3 ∷ []) ≡ none
unfolding find_regular_pool deepest_from has_capacity check_capacity_by_request check_request_from
    check_memory_capacity check_memory_from parent_of root_distance score_of get_score
    total_shared_cpu allocatable_shared_cpu allocatable_cpu_by_request allocatable_cpu_by_limit
    allocatable_memory contains
find_regular_pool_big = refl

find_regular_pool-IsDeepest_example : IsDeepest toy_lib toy toy_request (1 ∷ 3 ∷ []) 3
find_regular_pool-IsDeepest_example =
    find_regular_pool-IsDeepest toy_lib toy toy_request (1 ∷ 3 ∷ []) 3 find_regular_pool-toy

two-depths : (x : ℕ) → contains (1 ∷ 3 ∷ []) x ≡ true → root_distance toy_lib toy_nodes x < 2 ^ 63
unfolding contains root_distance
two-depths x h = ground arith

find_regular_pool-none_example : has_capacity toy_lib toy big_request 3 ≡ false
unfolding contains
find_regular_pool-none_example =
    find_regular_pool-none toy_lib toy big_request (1 ∷ 3 ∷ []) two-depths find_regular_pool_big 3
      refl

toy-IsIdentified : IsIdentified toy_lib toy toy_request [] (1 ∷ 3 ∷ [])
unfolding contains node_id
toy-IsIdentified = record { same = λ x y h k e. ground arith; word = λ x h. ground arith }

sort_pools_by_score-IsSorted_example :
    Perm (sort_pools_by_score toy_lib toy toy_request [] (1 ∷ 3 ∷ [])) (1 ∷ 3 ∷ [])
    × IsSorted
        (key_lt toy_lib toy toy_request [])
        (sort_pools_by_score toy_lib toy toy_request [] (1 ∷ 3 ∷ []))
sort_pools_by_score-IsSorted_example =
    sort_pools_by_score-IsSorted toy_lib toy toy_request [] (1 ∷ 3 ∷ []) toy-IsIdentified

abbrev toy_less : ℕ → ℕ → Bool
toy_less = compare_nodes toy_lib toy toy_request (score_map toy_lib toy toy_request (1 ∷ 3 ∷ [])) []

compare_nodes-total_example :
    (toy_less 1 1 ≡ false)
    × ((toy_less 1 3 ≡ true) ⊎ (toy_less 3 1 ≡ true) ⊎ ◌≡◌ {A = ℕ} 1 3)
    × ((toy_less 1 3 ≡ false) ⊎ (toy_less 3 1 ≡ false) ⊎ (toy_less 1 1 ≡ true))
unfolding contains
compare_nodes-total_example =
    compare_nodes-total toy_lib toy toy_request [] (1 ∷ 3 ∷ []) 1 3 1 toy-IsIdentified refl refl
      refl

compare_nodes-eq-lex_lt_example :
    toy_less 1 3 ≡ lex_lt (key toy_lib toy toy_request [] 1) (key toy_lib toy toy_request [] 3)
unfolding lookup_score score_map node_id
compare_nodes-eq-lex_lt_example =
    compare_nodes-eq-lex_lt toy_lib toy toy_request []
      (score_map toy_lib toy toy_request (1 ∷ 3 ∷ [])) 1 3 refl refl

-- ===== src/TopologyAware/Filter/Deepest.antt =====
-- findRegularPool of pool_filter.go: the deepest pool with capacity.
use cloud_native.Prelude.{
  ℕ, ◌-◌, ◌^◌, ◌<◌, true, false, Option, none, some, List, [], ◌∷◌, ◌≡◌, refl, arith, ==_iff, ap,
  subst, ◌⊎◌,
}
use cloud_native.Word64.{slt}
use cloud_native.TopologyAware.CpuSets.{CpuSetLib}
use cloud_native.TopologyAware.Request.{Request}
use cloud_native.TopologyAware.Tree.{root_distance}
use cloud_native.TopologyAware.Policy.{Policy}
use cloud_native.TopologyAware.Filter.{contains, has_capacity, deepest_from, find_regular_pool}

module _ (lib : CpuSetLib) (p : Policy lib) (req : Request) where
  -- The depth of the best pool so far, -1 for none
  abbrev depth_or : Option ℕ → ℕ
  depth_or none = 2 ^ 64 - 1
  depth_or (some r) = root_distance lib p.nodes r

  not_less_trans : (a b c : ℕ) → slt a b ≡ false → slt b c ≡ false → slt a c ≡ false
  not_less_trans a b c h k = ground arith

  deepest_from-ge :
      (best : Option ℕ) (d : ℕ) (pools : List ℕ)
      → d ≡ depth_or best
      → slt (depth_or (deepest_from lib p req best d pools)) d ≡ false
  unfolding deepest_from
  deepest_from-ge best d [] e = ground arith
  deepest_from-ge best d (x ∷ pools) e = ground (
    arith,
    deepest_from-ge (some x) (root_distance lib p.nodes x) pools,
    deepest_from-ge best d pools,
  )

  deepest_from-max :
      (best : Option ℕ) (d : ℕ) (pools : List ℕ) (x : ℕ)
      → d ≡ depth_or best
      → contains pools x ≡ true
      → has_capacity lib p req x ≡ true
      → slt (depth_or (deepest_from lib p req best d pools)) (root_distance lib p.nodes x) ≡ false
  unfolding deepest_from contains
  deepest_from-max best d [] x e i h = cc
  deepest_from-max best d (y ∷ pools) x e i h = ground (
    arith,
    deepest_from-ge (some y) (root_distance lib p.nodes y) pools,
    deepest_from-ge best d pools,
    deepest_from-max (some y) (root_distance lib p.nodes y) pools x,
    deepest_from-max best d pools x,
    ap (λ (k : ℕ). root_distance lib p.nodes k),
    ==_iff y x,
  )

  deepest_from-mem :
      (best : Option ℕ) (d : ℕ) (pools : List ℕ) (r : ℕ)
      → deepest_from lib p req best d pools ≡ some r
      → (best ≡ some r) ⊎ ((contains pools r ≡ true) × (has_capacity lib p req r ≡ true))
  unfolding deepest_from contains
  deepest_from-mem best d [] r h = ground arith
  deepest_from-mem best d (y ∷ pools) r h = ground (
    arith,
    deepest_from-mem (some y) (root_distance lib p.nodes y) pools r,
    deepest_from-mem best d pools r,
    ==_iff y r,
  )

  -- `r` is one of the pools and has the capacity, and no pool with the capacity is deeper.
  abbrev pub IsDeepest : List ℕ → ℕ → Type 0
  IsDeepest pools r =
      (contains pools r ≡ true)
      × (has_capacity lib p req r ≡ true)
      × ((x : ℕ)
          → contains pools x ≡ true
          → has_capacity lib p req x ≡ true
          → slt (root_distance lib p.nodes r) (root_distance lib p.nodes x) ≡ false)

  -- The pool that findRegularPool returns is one of the pools and has the capacity for the request,
  -- and no pool with the capacity is deeper.
  pub find_regular_pool-IsDeepest :
      (pools : List ℕ) (r : ℕ) → find_regular_pool lib p req pools ≡ some r → IsDeepest pools r
  unfolding find_regular_pool
  find_regular_pool-IsDeepest pools r h =
      let m = deepest_from-mem none (2 ^ 64 - 1) pools r h in
      (
        ground arith,
        ground arith,
        λ x i c.
            subst (λ o. slt (depth_or o) (root_distance lib p.nodes x) ≡ false) h
              (deepest_from-max none (2 ^ 64 - 1) pools x refl i c),
      )

  pub contains-find_regular_pool :
      (pools : List ℕ) (r : ℕ)
      → find_regular_pool lib p req pools ≡ some r
      → contains pools r ≡ true
  unfolding find_regular_pool
  contains-find_regular_pool pools r h =
      ground (arith, deepest_from-mem none (2 ^ 64 - 1) pools r h)

  -- If findRegularPool returns nil, no pool has the capacity for the request, where no pool has a
  -- negative depth.
  pub find_regular_pool-none :
      (pools : List ℕ)
      → ((x : ℕ) → contains pools x ≡ true → root_distance lib p.nodes x < 2 ^ 63)
      → find_regular_pool lib p req pools ≡ none
      → (x : ℕ) → contains pools x ≡ true
      → has_capacity lib p req x ≡ false
  unfolding find_regular_pool
  find_regular_pool-none pools low h x i =
      ground (arith, low x i, deepest_from-max none (2 ^ 64 - 1) pools x refl i, ap depth_or h)

-- ===== src/TopologyAware/Selection/Filtered.antt =====
-- Which pools filterPoolsByCapacity of pool_filter.go leaves.
use cloud_native.Prelude.{
  ℕ, subst, true, false, List, [], ◌∷◌, ◌≡◌, ◌≢◌, ◌⊎◌, inl, inr, refl, sym, ap, arith, ==_iff,
  Bool-cases,
}
use cloud_native.TopologyAware.Request.Devices.{is_empty}
use cloud_native.TopologyAware.CpuSets.{CpuSetLib}
use cloud_native.TopologyAware.Request.{Request}
use cloud_native.TopologyAware.Policy.{Policy}
use cloud_native.TopologyAware.Filter.{
  contains, has_capacity, pools_with_capacity, filter_pools_by_capacity,
}

module _ (lib : CpuSetLib) (p : Policy lib) (req : Request) where
  -- The pools that the loop of the filter keeps
  pub contains-pools_with_capacity :
      (pools : List ℕ) (r : ℕ)
      → contains (pools_with_capacity lib p req pools) r ≡ true
      → (contains pools r ≡ true) × (r ≢ p.root) × (has_capacity lib p req r ≡ true)
  unfolding pools_with_capacity contains
  contains-pools_with_capacity [] r h = cc
  contains-pools_with_capacity (x ∷ pools) r h = ground (
    arith,
    contains-pools_with_capacity pools r,
    ==_iff x r,
    ==_iff x p.root,
    ap (λ (k : ℕ). has_capacity lib p req k),
  )

  pub not_contained : (xs : List ℕ) (x : ℕ) → is_empty xs ≡ true → contains xs x ≡ false
  unfolding contains
  not_contained [] x h = refl
  not_contained (y ∷ xs) x h = cc

  pools_with_capacity_complete :
      (pools : List ℕ) (x : ℕ)
      → contains pools x ≡ true
      → x ≢ p.root
      → has_capacity lib p req x ≡ true
      → contains (pools_with_capacity lib p req pools) x ≡ true
  unfolding pools_with_capacity contains
  pools_with_capacity_complete [] x i ne h = cc
  pools_with_capacity_complete (y ∷ pools) x i ne h = ground (
    arith,
    pools_with_capacity_complete pools x,
    ==_iff y x,
    ==_iff y p.root,
    ap (λ (k : ℕ). has_capacity lib p req k),
  )

  root_fits : has_capacity lib p req p.root ≡ true
  unfolding has_capacity
  root_fits = ground (arith, ==_iff p.root p.root)

  -- A pool below the root that can take the request, or the root where no such pool can.
  abbrev pub IsChoice : ℕ → Type 0
  IsChoice r =
      (contains p.pools r ≡ true)
      × (((r ≢ p.root) × (has_capacity lib p req r ≡ true))
          ⊎ ((r ≡ p.root)
              × ((x : ℕ)
                  → contains p.pools x ≡ true
                  → x ≢ p.root
                  → has_capacity lib p req x ≡ false)))

  none_left :
      (x : ℕ)
      → is_empty (pools_with_capacity lib p req p.pools) ≡ true
      → contains p.pools x ≡ true
      → x ≢ p.root
      → has_capacity lib p req x ≡ false
  none_left x e i ne = ground (
    arith,
    pools_with_capacity_complete p.pools x i ne,
    not_contained (pools_with_capacity lib p req p.pools) x e,
  )

  pub filter-IsChoice :
      (r : ℕ) → contains (filter_pools_by_capacity lib p req) r ≡ true → IsChoice r
  unfolding filter_pools_by_capacity contains
  filter-IsChoice r h = elim (Bool-cases (is_empty (pools_with_capacity lib p req p.pools))) [
    | inl empty ↦
        let e : r ≡ p.root =
          ground (
            arith,
            not_contained (pools_with_capacity lib p req p.pools) r empty,
            ==_iff p.root r,
          ) in
        (
          ground (
            arith,
            not_contained (pools_with_capacity lib p req p.pools) r empty,
            ==_iff p.root r,
          ),
          inr (e, λ x i ne. none_left x empty i ne),
        )
    | inr some_pool ↦
        let (i, ne, fits) = contains-pools_with_capacity p.pools r (ground arith) in
        (i, inl (ne, fits))
  ]

  -- The filter leaves a pool that can take the request, if the root is among the pools.
  pub filter-inhabited :
      contains p.pools p.root ≡ true
      → (r : ℕ) × (contains (filter_pools_by_capacity lib p req) r ≡ true)
  unfolding filter_pools_by_capacity contains
  filter-inhabited i = elim (Bool-cases (is_empty (pools_with_capacity lib p req p.pools))) [
    | inl empty ↦ (p.root, ground (arith, ==_iff p.root p.root))
    | inr some_pool ↦
        let (x, h) = first_of_list (pools_with_capacity lib p req p.pools) some_pool in
        (x, ground arith)
  ]
    where
      first_of_list : (xs : List ℕ) → is_empty xs ≡ false → (x : ℕ) × (contains xs x ≡ true)
      first_of_list [] h = absurd (ground arith)
      first_of_list (x ∷ xs) h = (x, ground (arith, ==_iff x x))

  pub filter-has_capacity :
      (r : ℕ)
      → contains (filter_pools_by_capacity lib p req) r ≡ true
      → has_capacity lib p req r ≡ true
  filter-has_capacity r h = elim (filter-IsChoice r h).1 [
    | inl (ne, fits) ↦ fits
    | inr (e, others) ↦ subst (λ k. has_capacity lib p req k ≡ true) (sym e) root_fits
  ]

-- ===== src/TopologyAware/Selection/Granted.antt =====
-- The pool that is chosen in topology_aware.go can grant: the check of the filter and the check of
-- Supply.Allocate agree.
use cloud_native.Prelude.{ℕ, ◌^◌, ◌<◌, ltb, true, false, ◌≡◌, ◌≢◌, ◌⊎◌, inl, inr, arith, Bool-cases}
use cloud_native.TopologyAware.Outcome.{is_ok}
use cloud_native.TopologyAware.CpuSets.{CpuSetLib}
use cloud_native.TopologyAware.Request.{ResourceList, Request}
use cloud_native.TopologyAware.Supply.{allocate}
use cloud_native.TopologyAware.Supply.Capacity.{IsBounded, IsPlain, allocate-ok_iff}
use cloud_native.TopologyAware.Tree.{IsOrdered}
use cloud_native.TopologyAware.Policy.{Policy}
use cloud_native.TopologyAware.Filter.{has_capacity}
use cloud_native.TopologyAware.Filter.Climb.{
  FitsCpu, FitsMemory, UpToRoot-here, check_capacity_by_request_iff, check_memory_capacity_iff,
}

module _ (lib : CpuSetLib) (p : Policy lib) (req : Request) (ordered : IsOrdered lib p.nodes)
    (bounded : (a : ℕ) → IsBounded lib (p.free a)) (cpu : req.cpu_request < 2 ^ 62)
    (mem : req.mem_limit < 2 ^ 63) where
  fits_cpu : (r : ℕ) → r ≢ p.root → has_capacity lib p req r ≡ true → FitsCpu lib p req r
  unfolding has_capacity
  fits_cpu r ne h =
      UpToRoot-here lib p ne
        ((check_capacity_by_request_iff lib p req bounded r cpu ordered).0 (ground arith))

  fits_memory :
      (r : ℕ)
      → r ≢ p.root
      → has_capacity lib p req r ≡ true
      → (p.enable_memory_topology ≡ false) ⊎ FitsMemory lib p req r
  unfolding has_capacity
  fits_memory r ne h = elim (Bool-cases p.enable_memory_topology) [
    | inr off ↦ inl off
    | inl on ↦ elim (Bool-cases (ltb req.mem_limit 1024)) [
      | inl small ↦ inr (ground (arith, bounded r))
      | inr some_memory ↦ inr (
          UpToRoot-here lib p ne (
            (check_memory_capacity_iff lib p req bounded r (ground arith) mem ordered).0
              (ground arith)))
    ]
  ]

  -- At a pool below the root that passes the filter's check `Allocate` succeeds.
  pub has_capacity-ok :
      (r : ℕ) {lr ll : ResourceList}
      → IsPlain req lr ll
      → req.cpu_request ≡ lr.cpu_milli
      → r ≢ p.root
      → has_capacity lib p req r ≡ true
      → is_ok (allocate lib (p.free r) req p.enable_memory_topology) ≡ true
  has_capacity-ok r q e ne h =
      (allocate-ok_iff lib (p.free r) req p.enable_memory_topology (bounded r) q).1
        (ground (arith, fits_cpu r ne h), fits_memory r ne h)

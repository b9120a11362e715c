-- ===== src/TopologyAware/Filter/Climb.antt =====
-- checkCapacityByRequest and checkMemoryCapacity of pool_filter.go against a relation: the request
-- fits at every node from the pool up to the root, which is not asked.
use cloud_native.Prelude.{
  ℕ, zero, suc, ◌+◌, ◌*◌, ◌/◌, ◌^◌, ◌≤◌, ◌<◌, ltb, true, false, Option, none, some, ◌≡◌, ◌≢◌, ap,
  ◌↔◌, refl, arith, ◌==◌, ==_iff, inl, inr, Option-cases, Bool-cases,
}
use cloud_native.Word64.{is_neg}
use cloud_native.TopologyAware.CpuSets.{CpuSetLib}
use cloud_native.TopologyAware.Request.{Request}
use cloud_native.TopologyAware.Supply.Capacity.{IsBounded}
use cloud_native.TopologyAware.Tree.{parent_of, IsOrdered}
use cloud_native.TopologyAware.Policy.{Policy, score_of}
use cloud_native.TopologyAware.Filter.{
  check_request_from, check_capacity_by_request, check_memory_from, check_memory_capacity,
}

module _ (lib : CpuSetLib) (p : Policy lib) where
  -- Every node from a pool to below the root satisfies `P`, and the way up reaches the root.
  pub data UpToRoot (P : ℕ → Type 0) : ℕ → Type 0 where
    at_root : {r : ℕ} → r ≡ p.root → UpToRoot P r
    up :
        {r q : ℕ}
        → r ≢ p.root
        → P r
        → parent_of lib p.nodes r ≡ some q
        → UpToRoot P q
        → UpToRoot P r

  -- The CPUs that the supply has not granted by request suffice.
  abbrev pub FitsCpu : Request → ℕ → Type 0
  FitsCpu req r =
      (p.free r).granted_cpu_by_request + req.cpu_request ≤ 1000 * lib.size (p.free r).sharable

  abbrev pub FitsMemory : Request → ℕ → Type 0
  FitsMemory req r = (p.free r).granted_memory + req.mem_limit / 1024 ≤ (p.free r).memory_total

  check_request_from-none : (f : ℕ) (req : Request) → check_request_from lib f p req none ≡ false
  unfolding check_request_from
  check_request_from-none zero req = refl
  check_request_from-none (suc f) req = refl

  check_memory_from-none :
      (f : ℕ) (req : Request) (kb : ℕ) → check_memory_from lib f p req kb none ≡ false
  unfolding check_memory_from
  check_memory_from-none zero req kb = refl
  check_memory_from-none (suc f) req kb = refl

  module _ (req : Request) (bounded : (r : ℕ) → IsBounded lib (p.free r)) where
    score-FitsCpu :
        req.cpu_request < 2 ^ 62
        → (r : ℕ) → (is_neg (score_of lib p req r).shared_by_request ≡ false) ↔ FitsCpu req r
    unfolding score_of
    score-FitsCpu cpu r = ground (arith, bounded r)

    score-FitsMemory :
        (r : ℕ)
        → (ltb (score_of lib p req r).memory_capacity (req.mem_limit / 1024) ≡ false)
          ↔ FitsMemory req r
    unfolding score_of
    score-FitsMemory r = ground (arith, bounded r)

    check_request_from_sound :
        (f r : ℕ)
        → req.cpu_request < 2 ^ 62
        → check_request_from lib f p req (some r) ≡ true
        → UpToRoot (FitsCpu req) r
    unfolding check_request_from
    check_request_from_sound zero r cpu h = cc
    check_request_from_sound (suc f) r cpu h = elim (Bool-cases (r == p.root)) [
      | inl e ↦ at_root ((==_iff r p.root).0 e)
      | inr ne ↦ elim (Option-cases (parent_of lib p.nodes r)) [
        | inl top ↦ absurd (
            ground (
              arith,
              ap (λ (o : Option ℕ). check_request_from lib f p req o) top,
              check_request_from-none f req,
            ))
        | inr (q, e) ↦
            up (λ k. ground arith) ((score-FitsCpu cpu r).0 (ground arith)) e
              (check_request_from_sound f q cpu
                (ground (arith, ap (λ (o : Option ℕ). check_request_from lib f p req o) e)))
      ]
    ]

    check_request_from_complete :
        (f r : ℕ)
        → req.cpu_request < 2 ^ 62
        → IsOrdered lib p.nodes
        → r < f
        → UpToRoot (FitsCpu req) r
        → check_request_from lib f p req (some r) ≡ true
    unfolding check_request_from
    check_request_from_complete zero r cpu w l u = absurd (omega arith)
    check_request_from_complete (suc f) r cpu w l (at_root e) = ground arith
    check_request_from_complete (suc f) r cpu w l (up {q = q} ne fits e u) = ground (
      arith,
      ap (λ (o : Option ℕ). check_request_from lib f p req o) e,
      score-FitsCpu cpu r,
      check_request_from_complete f q cpu w (omega (arith, w.parent_lt r q e)) u,
    )

    -- checkCapacityByRequest answers yes exactly when the way up from the pool reaches the root and
    -- at each node before the root the CPUs granted by request and the requested ones together are
    -- no more than the node has. The nodes are in order, each supply has granted no more than it
    -- has, and the request is below 2 ^ 62.
    pub check_capacity_by_request_iff :
        (r : ℕ)
        → req.cpu_request < 2 ^ 62
        → IsOrdered lib p.nodes
        → (check_capacity_by_request lib p req r ≡ true) ↔ UpToRoot (FitsCpu req) r
    unfolding check_capacity_by_request
    check_capacity_by_request_iff r cpu w = (
      check_request_from_sound (suc r) r cpu,
      check_request_from_complete (suc r) r cpu w (omega arith),
    )

    check_memory_from_sound :
        (f r : ℕ)
        → check_memory_from lib f p req (req.mem_limit / 1024) (some r) ≡ true
        → UpToRoot (FitsMemory req) r
    unfolding check_memory_from
    check_memory_from_sound zero r h = cc
    check_memory_from_sound (suc f) r h = elim (Bool-cases (r == p.root)) [
      | inl e ↦ at_root ((==_iff r p.root).0 e)
      | inr ne ↦ elim (Option-cases (parent_of lib p.nodes r)) [
        | inl top ↦ absurd (
            ground (
              arith,
              ap (λ (o : Option ℕ). check_memory_from lib f p req (req.mem_limit / 1024) o) top,
              check_memory_from-none f req (req.mem_limit / 1024),
            ))
        | inr (q, e) ↦
            up (λ k. ground arith) ((score-FitsMemory r).0 (ground arith)) e
              (check_memory_from_sound f q (
                ground (
                  arith,
                  ap (λ (o : Option ℕ). check_memory_from lib f p req (req.mem_limit / 1024) o) e,
                )))
      ]
    ]

    check_memory_from_complete :
        (f r : ℕ)
        → IsOrdered lib p.nodes
        → r < f
        → UpToRoot (FitsMemory req) r
        → check_memory_from lib f p req (req.mem_limit / 1024) (some r) ≡ true
    unfolding check_memory_from
    check_memory_from_complete zero r w l u = absurd (omega arith)
    check_memory_from_complete (suc f) r w l (at_root e) = ground arith
    check_memory_from_complete (suc f) r w l (up {q = q} ne fits e u) = ground (
      arith,
      ap (λ (o : Option ℕ). check_memory_from lib f p req (req.mem_limit / 1024) o) e,
      score-FitsMemory r,
      check_memory_from_complete f q w (omega (arith, w.parent_lt r q e)) u,
    )

    -- checkMemoryCapacity answers yes exactly when the way up from the pool reaches the root and at
    -- each node before the root the granted memory and the limit in KB together are no more than
    -- the node has. The nodes are in order, each supply has granted no more than it has, and the
    -- limit is at least 1 KB and below 2 ^ 63 bytes.
    pub check_memory_capacity_iff :
        (r : ℕ)
        → 1024 ≤ req.mem_limit
        → req.mem_limit < 2 ^ 63
        → IsOrdered lib p.nodes
        → (check_memory_capacity lib p req r ≡ true) ↔ UpToRoot (FitsMemory req) r
    unfolding check_memory_capacity
    check_memory_capacity_iff r lo hi w = ground (
      arith,
      check_memory_from_sound (suc r) r,
      check_memory_from_complete (suc r) r w (omega arith),
    )

  -- The node that the way starts from
  pub UpToRoot-here : {P : ℕ → Type 0} {r : ℕ} → r ≢ p.root → UpToRoot P r → P r
  UpToRoot-here ne (at_root e) = absurd (ne e)
  UpToRoot-here ne (up n here e u) = here

-- ===== src/TopologyAware/Rebuild/Account.antt =====
-- The rebuild of state_rebuild.go keeps the books.
use cloud_native.Prelude.{
  ℕ, ◌≤◌, String, Option, none, some, List, [], ◌∷◌, ◌≡◌, ◌⊎◌, inl, inr, refl, sym, subst, arith,
  str_eq, Bool-cases, Option-cases,
}
use cloud_native.TopologyAware.CpuSets.{CpuSetLib}
use cloud_native.TopologyAware.Supply.{Grant}
use cloud_native.TopologyAware.Propagate.{add_grant}
use cloud_native.TopologyAware.Policy.{Policy}
use cloud_native.TopologyAware.Hooks.{grant_at, grant_key, load_grant}
use cloud_native.TopologyAware.Hooks.Booked.{total, delete-eq_of_none}
use cloud_native.TopologyAware.Hooks.Account.{IsAccounted, IsLight, IsAccounted-grant_at}
use cloud_native.TopologyAware.Rebuild.{
  CachedContainer, is_live, create_grant_from_container, find_node_by_cpu_set, rebuild_at,
  rebuild_one, rebuild_allocations_from_cache,
}

module _ (lib : CpuSetLib) where
  -- The grant `g` under the key `gid`, booked at its node and above
  abbrev pub with_grant : Policy lib → String → Grant → Policy lib
  with_grant p gid g = (grant_at lib p gid g.node (add_grant lib (p.free g.node) g, g)).0

  -- A round that adds a grant
  pub record IsRebuilt (p : Policy lib) (c : CachedContainer) (q : Policy lib) : Type 0 where
    pub uid : String
    pub target : ℕ
    pub pod : c.pod_uid ≡ some uid
    pub found : find_node_by_cpu_set lib p c.cpuset_cpus ≡ some target
    pub fresh : load_grant (grant_key uid c.name) p.grants ≡ none
    pub result : with_grant p (grant_key uid c.name) (create_grant_from_container c uid target) ≡ q

  rebuild_at-cases :
      (p : Policy lib) (c : CachedContainer) (o : Option ℕ)
      → find_node_by_cpu_set lib p c.cpuset_cpus ≡ o
      → (rebuild_at lib p c o ≡ p) ⊎ IsRebuilt p c (rebuild_at lib p c o)
  unfolding rebuild_at grant_at
  rebuild_at-cases p c none e = inl refl
  rebuild_at-cases p c (some target) e = elim (Option-cases c.pod_uid) [
    | inl no_pod ↦ inl (rw no_pod)
    | inr (uid, pod) ↦ elim (Option-cases (load_grant (grant_key uid c.name) p.grants)) [
      | inr (held, h) ↦ inl (rw (pod, h))
      | inl fresh ↦ inr (record {
        uid = uid;
        target = target;
        pod = pod;
        found = e;
        fresh = fresh;
        result = rw (pod, fresh);
      })
    ]
  ]

  -- A round leaves the policy alone or adds a grant under a new key.
  pub rebuild_one-cases :
      (p : Policy lib) (c : CachedContainer)
      → (rebuild_one lib p c ≡ p) ⊎ IsRebuilt p c (rebuild_one lib p c)
  unfolding rebuild_one
  rebuild_one-cases p c = elim (Bool-cases (is_live c.state)) [
    | inr dead ↦ inl (rw dead)
    | inl live ↦ elim (Bool-cases (str_eq c.namespace "kube-system")) [
      | inl system ↦ inl (rw (live, system))
      | inr user ↦ elim (Bool-cases (str_eq c.cpuset_cpus "")) [
        | inl unset ↦ inl (rw (live, user, unset))
        | inr given ↦
            rw (live, user, given)
              (rebuild_at-cases p c (find_node_by_cpu_set lib p c.cpuset_cpus) refl)
      ]
    ]
  ]

  rebuild_one-IsAccounted :
      (p : Policy lib) (c : CachedContainer)
      → IsAccounted lib p
      → IsLight lib (rebuild_one lib p c).grants
      → IsAccounted lib (rebuild_one lib p c)
  rebuild_one-IsAccounted p c w l = elim (rebuild_one-cases p c) [
    | inl same ↦ subst (IsAccounted lib) (sym same) w
    | inr r ↦ subst (IsAccounted lib) r.result (
        IsAccounted-grant_at lib p (grant_key r.uid c.name)
          (create_grant_from_container c r.uid r.target) w r.fresh
          (subst (λ (q : Policy lib). IsLight lib q.grants) (sym r.result) l))
  ]

  total-rebuild_one :
      (amount : Grant → ℕ) (p : Policy lib) (c : CachedContainer)
      → total amount p.grants ≤ total amount (rebuild_one lib p c).grants
  unfolding grant_at total
  total-rebuild_one amount p c = elim (rebuild_one-cases p c) [
    | inl same ↦ rw same (omega arith)
    | inr r ↦
        let g = create_grant_from_container c r.uid r.target in
        rw (← r.result, delete-eq_of_none (grant_key r.uid c.name) p.grants r.fresh) (omega arith)
  ]

  total-rebuild :
      (amount : Grant → ℕ) (p : Policy lib) (containers : List CachedContainer)
      → total amount p.grants
        ≤ total amount (rebuild_allocations_from_cache lib p containers).grants
  unfolding rebuild_allocations_from_cache
  total-rebuild amount p [] = omega arith
  total-rebuild amount p (c ∷ containers) =
      omega
        (arith, total-rebuild_one amount p c, total-rebuild amount (rebuild_one lib p c) containers)

  before-IsLight :
      (p : Policy lib) (containers : List CachedContainer)
      → IsLight lib (rebuild_allocations_from_cache lib p containers).grants
      → IsLight lib p.grants
  before-IsLight p cs l = ground (
    arith,
    total-rebuild (λ g. g.allocated_cpus) p cs,
    total-rebuild (λ g. g.allocated_cpu_by_request) p cs,
    total-rebuild (λ g. g.allocated_cpu_by_limit) p cs,
    total-rebuild (λ g. g.allocated_memory) p cs,
  )

  -- If the books are right, they are right after RebuildAllocationsFromCache from any list of
  -- cached containers, provided that the sum of the grants it ends with is below 2 ^ 63.
  pub rebuild_allocations_from_cache-IsAccounted :
      (p : Policy lib) (containers : List CachedContainer)
      → IsAccounted lib p
      → IsLight lib (rebuild_allocations_from_cache lib p containers).grants
      → IsAccounted lib (rebuild_allocations_from_cache lib p containers)
  unfolding rebuild_allocations_from_cache
  rebuild_allocations_from_cache-IsAccounted p [] w l = w
  rebuild_allocations_from_cache-IsAccounted p (c ∷ containers) w l =
      rebuild_allocations_from_cache-IsAccounted (rebuild_one lib p c) containers
        (rebuild_one-IsAccounted p c w (before-IsLight (rebuild_one lib p c) containers l)) l

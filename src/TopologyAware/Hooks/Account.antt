-- ===== src/TopologyAware/Hooks/Account.antt =====
-- The books of topology_aware.go: at every node, what its supply has granted is the sum of the grants
-- that are held at the node or below it.
use cloud_native.Prelude.{
  ℕ, ◌<◌, ◌^◌, Bool, true, String, none, some, List, ◌∷◌, ◌≡◌, refl, arith, ap, sym, ◌∙◌, subst,
  ==_iff, if◌then◌else◌,
}
use cloud_native.TopologyAware.Outcome.{ok}
use cloud_native.TopologyAware.CpuSets.{CpuSetLib}
use cloud_native.TopologyAware.Request.{
  ContainerRequest, ResourceList, Request, get_requests, get_limits,
}
use cloud_native.TopologyAware.Request.Fields.{new_request-IsRequestOf}
use cloud_native.TopologyAware.Supply.{Supply, Grant, allocate}
use cloud_native.TopologyAware.Supply.Reversible.{IsNonneg, IsReadable, allocate-IsGrantOf}
use cloud_native.TopologyAware.Tree.{Nodes, IsOrdered, parent_of, covers}
use cloud_native.TopologyAware.Propagate.{add_grant, set_free, propagate_resource_to_parent}
use cloud_native.TopologyAware.Propagate.Chain.{propagate_from-at, above_lt}
use cloud_native.TopologyAware.Policy.{Policy}
use cloud_native.TopologyAware.Hooks.{grant_at, grant_key, allocate_pool, load_grant}
use cloud_native.TopologyAware.Hooks.Booked.{
  total, IsDistinct, booked, booked-le-total, delete-eq_of_none, load-delete_self,
}
use cloud_native.TopologyAware.Hooks.Undo.{allocate_pool-inv}

module _ (lib : CpuSetLib) where
  -- The supply `s` has granted what the grants amount to at the node `a`.
  pub record IsBooked (nodes : Nodes lib) (grants : List (String × Grant)) (a : ℕ) (s : Supply lib)
      : Type 0 where
    pub shared : s.granted_shared ≡ booked lib nodes (λ g. g.allocated_cpus) grants a
    pub by_request :
        s.granted_cpu_by_request ≡ booked lib nodes (λ g. g.allocated_cpu_by_request) grants a
    pub by_limit :
        s.granted_cpu_by_limit ≡ booked lib nodes (λ g. g.allocated_cpu_by_limit) grants a
    pub memory : s.granted_memory ≡ booked lib nodes (λ g. g.allocated_memory) grants a

  -- All grants together stay within the positive `int`s.
  pub record IsLight (grants : List (String × Grant)) : Type 0 where
    pub shared : total (λ g. g.allocated_cpus) grants < 2 ^ 63
    pub by_request : total (λ g. g.allocated_cpu_by_request) grants < 2 ^ 63
    pub by_limit : total (λ g. g.allocated_cpu_by_limit) grants < 2 ^ 63
    pub memory : total (λ g. g.allocated_memory) grants < 2 ^ 63

  pub record IsAccounted (p : Policy lib) : Type 0 where
    pub ordered : IsOrdered lib p.nodes
    pub named : (a : ℕ) → (p.free a).node ≡ a
    pub distinct : IsDistinct p.grants
    pub light : IsLight p.grants
    pub supplies : (a : ℕ) → IsBooked p.nodes p.grants a (p.free a)

  pub IsBooked-IsNonneg :
      (nodes : Nodes lib) (grants : List (String × Grant)) (a : ℕ) (s : Supply lib)
      → IsLight grants
      → IsBooked nodes grants a s
      → IsNonneg lib s
  IsBooked-IsNonneg nodes grants a s l b = ground (
    arith,
    booked-le-total lib nodes (λ g. g.allocated_cpus) grants a,
    booked-le-total lib nodes (λ g. g.allocated_cpu_by_request) grants a,
    booked-le-total lib nodes (λ g. g.allocated_cpu_by_limit) grants a,
    booked-le-total lib nodes (λ g. g.allocated_memory) grants a,
  )

  -- What `Allocate` leaves at the pool is what the loop above it leaves at the other nodes.
  pub allocate-eq-add_grant :
      (s : Supply lib) (req : Request) (enforce : Bool) {lr ll : ResourceList} {t : Supply lib}
      {g : Grant}
      → IsNonneg lib s
      → IsReadable req lr ll
      → allocate lib s req enforce ≡ ok (t, g)
      → t ≡ add_grant lib s g
  unfolding allocate add_grant
  allocate-eq-add_grant s req enforce w q h = ground arith

  module _ (nodes : Nodes lib) (ordered : IsOrdered lib nodes) (free : ℕ → Supply lib)
      (g : Grant) where
    -- The pool and the nodes above it book the grant, and no other node changes.
    pub allocated-at :
        (a : ℕ)
        → propagate_resource_to_parent lib nodes g true
            (set_free lib free g.node (add_grant lib (free g.node) g))
            a
          ≡ (if covers lib nodes a g.node then add_grant lib (free a) g else free a)
    unfolding propagate_resource_to_parent covers
    allocated-at a =
        let n = g.node in
        ground (
          arith,
          propagate_from-at lib nodes ordered n (parent_of lib nodes n) g true
              (set_free lib free n (add_grant lib (free n) g)) a,
          above_lt lib nodes ordered n n a,
          ==_iff n a,
          ap free,
        )

  IsBooked-add :
      (nodes : Nodes lib) (gid : String) (grants : List (String × Grant)) (a : ℕ) (s : Supply lib)
      (g : Grant)
      → IsBooked nodes grants a s
      → IsLight ((gid, g) ∷ grants)
      → IsBooked nodes
          ((gid, g) ∷ grants)
          a
          (if covers lib nodes a g.node then add_grant lib s g else s)
  unfolding booked total add_grant
  IsBooked-add nodes gid grants a s g b l = ground (
    arith,
    booked-le-total lib nodes (λ g. g.allocated_cpus) grants a,
    booked-le-total lib nodes (λ g. g.allocated_cpu_by_request) grants a,
    booked-le-total lib nodes (λ g. g.allocated_cpu_by_limit) grants a,
    booked-le-total lib nodes (λ g. g.allocated_memory) grants a,
  )

  -- A successful allocation books the grant that it returns, at the grant's node and above.
  pub allocate_pool-as-grant_at :
      (p : Policy lib) (c : ContainerRequest) (lr ll : ResourceList) {r : Policy lib × Grant}
      → IsAccounted p
      → get_requests c ≡ some lr
      → get_limits c ≡ some ll
      → lr.cpu_milli < 2 ^ 64
      → ll.cpu_milli < 2 ^ 64
      → ll.memory < 2 ^ 63
      → allocate_pool lib p c ≡ ok r
      → grant_at lib p
          (grant_key c.pod_uid c.container_name)
          r.1.node
          (add_grant lib (p.free r.1.node) r.1, r.1)
        ≡ r
  unfolding grant_at
  allocate_pool-as-grant_at p c lr ll {r} w er el h1 h2 h3 h =
      let a = allocate_pool-inv lib p c h in
      let f = new_request-IsRequestOf c a.req lr ll er el a.request_eq in
      let q : IsReadable a.req lr ll = ground arith in
      let nonneg =
        IsBooked-IsNonneg p.nodes p.grants a.pool (p.free a.pool) w.light (w.supplies a.pool) in
      let k = allocate-IsGrantOf lib (p.free a.pool) a.req p.enable_memory_topology q a.taken_eq in
      let gid = grant_key c.pod_uid c.container_name in
      let g = a.taken.1 in
      let s_eq =
        allocate-eq-add_grant (p.free a.pool) a.req p.enable_memory_topology nonneg q a.taken_eq in
      let at_pool : grant_at lib p gid a.pool (add_grant lib (p.free a.pool) g, g) ≡ r =
        ap (λ (s : Supply lib). grant_at lib p gid a.pool (s, g)) (sym s_eq) ∙ a.result_eq in
      let at_node : grant_at lib p gid g.node (add_grant lib (p.free g.node) g, g) ≡ r =
        ap (λ (n : ℕ). grant_at lib p gid n (add_grant lib (p.free n) g, g))
          (k.node ∙ w.named a.pool)
        ∙ at_pool in
      subst (λ (g : Grant). grant_at lib p gid g.node (add_grant lib (p.free g.node) g, g) ≡ r)
        (ap (λ (r : Policy lib × Grant). r.1) at_node) at_node

  pub IsAccounted-grant_at :
      (p : Policy lib) (gid : String) (g : Grant)
      → IsAccounted p
      → load_grant gid p.grants ≡ none
      → IsLight (grant_at lib p gid g.node (add_grant lib (p.free g.node) g, g)).0.grants
      → IsAccounted (grant_at lib p gid g.node (add_grant lib (p.free g.node) g, g)).0
  unfolding grant_at
  IsAccounted-grant_at p gid g w fresh l =
      let kept = delete-eq_of_none gid p.grants fresh in
      let at = allocated-at p.nodes w.ordered p.free g in
      record {
        ordered = w.ordered;
        named = λ a. ground (arith, at a, w.named a, add_grant-node (p.free a));
        distinct = (load-delete_self gid p.grants, rw kept w.distinct);
        light = l;
        supplies = λ a.
            rw (at a, kept)
              (IsBooked-add p.nodes gid p.grants a (p.free a) g (w.supplies a) (rw kept at l));
      }
    where
      add_grant-node : (s : Supply lib) → (add_grant lib s g).node ≡ s.node
      add_grant-node s = unfold add_grant in refl

  -- Let the books be right: at every node the supply has granted, in CPUs, CPU by request, CPU by
  -- limit and memory, exactly the sum of the grants held at the node or below it. If a container
  -- whose key holds no grant gets one from allocatePool, and the sum of all grants stays below 2 ^
  -- 63, the books are right after it. The request names both resource lists, its CPU amounts are
  -- 64-bit words and its memory limit is not negative.
  pub allocate_pool-IsAccounted :
      (p : Policy lib) (c : ContainerRequest) (lr ll : ResourceList) {r : Policy lib × Grant}
      → IsAccounted p
      → get_requests c ≡ some lr
      → get_limits c ≡ some ll
      → lr.cpu_milli < 2 ^ 64
      → ll.cpu_milli < 2 ^ 64
      → ll.memory < 2 ^ 63
      → load_grant (grant_key c.pod_uid c.container_name) p.grants ≡ none
      → allocate_pool lib p c ≡ ok r
      → IsLight r.0.grants
      → IsAccounted r.0
  allocate_pool-IsAccounted p c lr ll {r} w er el h1 h2 h3 fresh h l =
      let whole = allocate_pool-as-grant_at p c lr ll w er el h1 h2 h3 h in
      subst (λ (r : Policy lib × Grant). IsAccounted r.0) whole
        (IsAccounted-grant_at p (grant_key c.pod_uid c.container_name) r.1 w fresh
          (subst (λ (r : Policy lib × Grant). IsLight r.0.grants) (sym whole) l))

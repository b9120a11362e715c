-- ===== src/TopologyAware/Hooks/Undo.antt =====
-- Releasing a container of topology_aware.go takes back all that its allocation booked, at every node.
use cloud_native.Prelude.{
  ℕ, ◌^◌, ◌<◌, true, false, String, Option, some, List, [], ◌∷◌, subst, ◌≡◌, refl, ap, sym, ◌∙◌,
  arith, str_eq, str_eq_refl, Option-cases, inl, inr,
}
use cloud_native.TopologyAware.Outcome.{ok, >>=-eq-ok}
use cloud_native.TopologyAware.CpuSets.{CpuSetLib}
use cloud_native.TopologyAware.Request.{
  ContainerRequest, ResourceList, Request, new_request, get_requests, get_limits,
}
use cloud_native.TopologyAware.Request.Fields.{new_request-IsRequestOf}
use cloud_native.TopologyAware.Supply.{Supply, Grant, allocate, release}
use cloud_native.TopologyAware.Supply.Reversible.{
  IsNonneg, IsReadable, allocate-IsGrantOf, release-allocate,
}
use cloud_native.TopologyAware.Tree.{IsOrdered, parent_of}
use cloud_native.TopologyAware.Propagate.{
  add_grant, subtract_grant, set_free, propagate_from, propagate_resource_to_parent,
}
use cloud_native.TopologyAware.Propagate.Chain.{propagate_from-at, above_lt}
use cloud_native.TopologyAware.Policy.{Policy}
use cloud_native.TopologyAware.Hooks.{
  choose_pool, grant_at, grant_key, allocate_at, allocate_request, allocate_pool, load_grant,
  store_grant, delete_grant, release_pool,
}

pub load-store :
    (gid : String) (g : Grant) (grants : List (String × Grant))
    → load_grant gid (store_grant gid g grants) ≡ some g
unfolding load_grant store_grant
load-store gid g grants = rw (str_eq_refl gid)

ok-injective {ℓ} : {A : Type ℓ} {a b : A} → ok a ≡ ok b → a ≡ b
ok-injective h = cc

module _ (lib : CpuSetLib) where
  -- What a successful allocation was made of.
  pub record Allocated (p : Policy lib) (c : ContainerRequest) (r : Policy lib × Grant)
      : Type 0 where
    pub req : Request
    pub pool : ℕ
    pub taken : Supply lib × Grant
    pub request_eq : new_request c ≡ some req
    pub pool_eq : choose_pool lib p c req ≡ ok pool
    pub taken_eq : allocate lib (p.free pool) req p.enable_memory_topology ≡ ok taken
    pub result_eq : grant_at lib p (grant_key c.pod_uid c.container_name) pool taken ≡ r

  pub allocate_pool-inv :
      (p : Policy lib) (c : ContainerRequest) {r : Policy lib × Grant}
      → allocate_pool lib p c ≡ ok r
      → Allocated p c r
  unfolding allocate_pool
  allocate_pool-inv p c h = elim (Option-cases (new_request c)) [
    | inl nothing ↦ cc (ap (λ (o : Option Request). allocate_request lib p c o) nothing)
    | inr (req, e) ↦
        let (pool, chosen, rest) =
          >>=-eq-ok (choose_pool lib p c req) (λ pool. allocate_at lib p c req pool)
            (sym (ap (λ (o : Option Request). allocate_request lib p c o) e) ∙ h) in
        let (taken, got, final) =
          >>=-eq-ok (allocate lib (p.free pool) req p.enable_memory_topology)
            (λ taken. ok (grant_at lib p (grant_key c.pod_uid c.container_name) pool taken)) rest in
        record {
          req = req;
          pool = pool;
          taken = taken;
          request_eq = e;
          pool_eq = chosen;
          taken_eq = got;
          result_eq = ok-injective final;
        }
  ]

  subtract-add :
      (s : Supply lib) (g : Grant)
      → IsNonneg lib s
      → g.allocated_cpus < 2 ^ 64
      → g.allocated_cpu_by_request < 2 ^ 64
      → g.allocated_cpu_by_limit < 2 ^ 64
      → g.allocated_memory < 2 ^ 63
      → subtract_grant lib (add_grant lib s g) g ≡ s
  unfolding subtract_grant add_grant
  subtract-add s g w h1 h2 h3 h4 = ground arith

  -- The way up from the grant's node does not meet the node, so both passes act on each supply once.
  module _ (p : Policy lib) (ordered : IsOrdered lib p.nodes) (s : Supply lib) (g : Grant) where
    pub undo-at :
        IsNonneg lib (p.free g.node)
        → ((a : ℕ) → IsNonneg lib (p.free a))
        → g.allocated_cpus < 2 ^ 64
        → g.allocated_cpu_by_request < 2 ^ 64
        → g.allocated_cpu_by_limit < 2 ^ 64
        → g.allocated_memory < 2 ^ 63
        → release lib s g ≡ p.free g.node
        → (a : ℕ)
        → set_free lib
            (propagate_resource_to_parent lib p.nodes g false
              (propagate_resource_to_parent lib p.nodes g true (set_free lib p.free g.node s)))
            g.node
            (release lib
              (propagate_resource_to_parent lib p.nodes g false
                (propagate_resource_to_parent lib p.nodes g true (set_free lib p.free g.node s))
                g.node)
              g)
            a
          ≡ p.free a
    unfolding propagate_resource_to_parent
    undo-at w ws h1 h2 h3 h4 back a =
        let o = parent_of lib p.nodes g.node in
        let free1 = set_free lib p.free g.node s in
        let free2 = propagate_from lib g.node p.nodes o g true free1 in
        let n = g.node in
        ground (
          arith,
          subtract-add (p.free a) g (ws a) h1 h2 h3 h4,
          back,
          propagate_from-at lib p.nodes ordered n o g false free2 a,
          propagate_from-at lib p.nodes ordered n o g true free1 a,
          propagate_from-at lib p.nodes ordered n o g false free2 n,
          propagate_from-at lib p.nodes ordered n o g true free1 n,
          above_lt lib p.nodes ordered n n n,
          above_lt lib p.nodes ordered n n a,
        )

  -- A policy as the builder and the hooks leave it.
  pub record IsSettled (p : Policy lib) : Type 0 where
    pub ordered : IsOrdered lib p.nodes
    pub named : (a : ℕ) → (p.free a).node ≡ a
    pub nonneg : (a : ℕ) → IsNonneg lib (p.free a)

  pub delete_delete :
      (gid : String) (grants : List (String × Grant))
      → delete_grant gid (delete_grant gid grants) ≡ delete_grant gid grants
  unfolding delete_grant
  delete_delete gid [] = refl
  delete_delete gid ((k, g) ∷ grants) = ground (arith, delete_delete gid grants)

  pub record IsUndone (p : Policy lib) (gid : String) (g : Grant) (u : Policy lib × Option Grant)
      : Type 0 where
    pub found : u.1 ≡ some g
    pub supplies : (a : ℕ) → u.0.free a ≡ p.free a
    pub grants : u.0.grants ≡ delete_grant gid p.grants

  -- The release of a container whose grant was taken at `pool`.
  undone :
      (p : Policy lib) (c : ContainerRequest) (pool : ℕ) (s : Supply lib) (g : Grant)
      → IsSettled p
      → g.node ≡ pool
      → g.allocated_cpus < 2 ^ 64
      → g.allocated_cpu_by_request < 2 ^ 64
      → g.allocated_cpu_by_limit < 2 ^ 64
      → g.allocated_memory < 2 ^ 63
      → release lib s g ≡ p.free pool
      → str_eq c.container_id "" ≡ false
      → str_eq c.pod_uid "" ≡ false
      → IsUndone p
          (grant_key c.pod_uid c.container_name)
          g
          (release_pool lib (grant_at lib p (grant_key c.pod_uid c.container_name) pool (s, g)).0 c)
  unfolding release_pool grant_at
  undone p c pool s g w e h1 h2 h3 h4 back id uid =
      let gid = grant_key c.pod_uid c.container_name in
      rw (id, uid, load-store gid g p.grants, ← e)
        (record {
          found = refl;
          supplies =
              undo-at p w.ordered s g (w.nonneg g.node) w.nonneg h1 h2 h3 h4
                (back ∙ ap p.free (sym e));
          grants = rw (str_eq_refl gid) (delete_delete gid p.grants);
        })

  -- releasePool right after a successful allocatePool of the same container finds the grant that
  -- was given, gives every node back the very supply it had before, and leaves the old grants less
  -- those of the container's key. The nodes are in order, the granted amounts before are not
  -- negative, the identifiers are not empty, the request names both lists, its CPU amounts are
  -- 64-bit words and its memory limit is not negative.
  pub release_pool-allocate_pool :
      (p : Policy lib) (c : ContainerRequest) (lr ll : ResourceList) {r : Policy lib × Grant}
      → IsSettled p
      → get_requests c ≡ some lr
      → get_limits c ≡ some ll
      → lr.cpu_milli < 2 ^ 64
      → ll.cpu_milli < 2 ^ 64
      → ll.memory < 2 ^ 63
      → str_eq c.container_id "" ≡ false
      → str_eq c.pod_uid "" ≡ false
      → allocate_pool lib p c ≡ ok r
      → IsUndone p (grant_key c.pod_uid c.container_name) r.1 (release_pool lib r.0 c)
  unfolding grant_at
  release_pool-allocate_pool p c lr ll {r} w er el h1 h2 h3 id uid h =
      let a = allocate_pool-inv p c h in
      let f = new_request-IsRequestOf c a.req lr ll er el a.request_eq in
      let q : IsReadable a.req lr ll = ground arith in
      let (s, g) = a.taken in
      let k = allocate-IsGrantOf lib (p.free a.pool) a.req p.enable_memory_topology q a.taken_eq in
      subst (λ r. IsUndone p (grant_key c.pod_uid c.container_name) r.1 (release_pool lib r.0 c))
        a.result_eq
        (undone p c a.pool s g w (k.node ∙ w.named a.pool) k.cpus k.by_request k.by_limit
          (omega (arith, k.memory, f.mem_limit))
          (release-allocate lib (p.free a.pool) a.req p.enable_memory_topology (w.nonneg a.pool) q
            a.taken_eq)
          id uid)

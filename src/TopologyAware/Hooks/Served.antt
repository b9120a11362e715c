-- ===== src/TopologyAware/Hooks/Served.antt =====
-- When allocatePool of topology_aware.go succeeds.
use cloud_native.Prelude.{ℕ, ◌^◌, ◌<◌, true, false, some, ◌≡◌, ◌≢◌, arith, str_eq}
use cloud_native.TopologyAware.Outcome.{ok, is_ok}
use cloud_native.TopologyAware.CpuSets.{CpuSetLib}
use cloud_native.TopologyAware.Request.{
  ContainerRequest, ResourceList, Request, new_request, get_requests, get_limits,
}
use cloud_native.TopologyAware.Request.Fields.{new_request-IsRequestOf}
use cloud_native.TopologyAware.Supply.{allocate}
use cloud_native.TopologyAware.Supply.Capacity.{IsBounded, IsPlain}
use cloud_native.TopologyAware.Tree.{IsOrdered}
use cloud_native.TopologyAware.Policy.{Policy}
use cloud_native.TopologyAware.Selection.{select_pool}
use cloud_native.TopologyAware.Selection.Sound.{select_pool-fits}
use cloud_native.TopologyAware.Selection.Granted.{has_capacity-ok}
use cloud_native.TopologyAware.Hooks.{choose_pool, allocate_at, allocate_pool}

module _ (lib : CpuSetLib) where
  is_ok-allocate_at :
      (p : Policy lib) (c : ContainerRequest) (req : Request) (r : ℕ)
      → is_ok (allocate lib (p.free r) req p.enable_memory_topology) ≡ true
      → is_ok (allocate_at lib p c req r) ≡ true
  unfolding allocate_at
  is_ok-allocate_at p c req r h = ground arith

  -- allocatePool succeeds for a container outside kube-system whose request is well formed and for
  -- which the choice of a pool has found a pool other than the root: the supply of that pool does
  -- not refuse what the filter let pass. The nodes are in order, each supply has granted no more
  -- than it has, and the amounts of the request are not negative.
  pub allocate_pool-ok :
      (p : Policy lib) (c : ContainerRequest) (lr ll : ResourceList) (req : Request) (r : ℕ)
      → IsOrdered lib p.nodes
      → ((a : ℕ) → IsBounded lib (p.free a))
      → get_requests c ≡ some lr
      → get_limits c ≡ some ll
      → lr.cpu_milli < 2 ^ 62
      → ll.cpu_milli < 2 ^ 63
      → ll.memory < 2 ^ 63
      → new_request c ≡ some req
      → str_eq c.pod_namespace "kube-system" ≡ false
      → select_pool lib p req ≡ ok r
      → r ≢ p.root
      → is_ok (allocate_pool lib p c) ≡ true
  unfolding allocate_pool choose_pool
  allocate_pool-ok p c lr ll req r w b er el h1 h2 h3 e ns h ne =
      let f = new_request-IsRequestOf c req lr ll er el e in
      let q : IsPlain req lr ll = ground arith in
      let fine = is_ok-allocate_at p c req r (
        has_capacity-ok lib p req w b (omega (arith, f.cpu_request)) (omega (arith, f.mem_limit)) r
          q f.cpu_request ne (select_pool-fits lib p req r h).1) in
      rw (e, ns, h) fine

-- ===== src/TopologyAware/Hooks/Overwrite.antt =====
-- allocatePool of topology_aware.go for a key that holds a grant already.
use cloud_native.Prelude.{ℕ, ◌+◌, ◌<◌, ◌^◌, String, some, ◌≡◌, subst, arith}
use cloud_native.TopologyAware.Outcome.{ok}
use cloud_native.TopologyAware.CpuSets.{CpuSetLib}
use cloud_native.TopologyAware.Request.{ContainerRequest, ResourceList, get_requests, get_limits}
use cloud_native.TopologyAware.Supply.{Grant}
use cloud_native.TopologyAware.Propagate.{add_grant}
use cloud_native.TopologyAware.Policy.{Policy}
use cloud_native.TopologyAware.Hooks.{grant_at, grant_key, allocate_pool, load_grant}
use cloud_native.TopologyAware.Hooks.Booked.{total, booked, share, booked-delete, booked-le-total}
use cloud_native.TopologyAware.Hooks.Account.{IsAccounted, allocate_pool-as-grant_at, allocated-at}

module _ (lib : CpuSetLib) where
  abbrev by_request : Grant → ℕ
  by_request g = g.allocated_cpu_by_request

  grant_at-overbooked :
      (p : Policy lib) (gid : String) (old g : Grant) (a : ℕ)
      → IsAccounted lib p
      → load_grant gid p.grants ≡ some old
      → total by_request p.grants + g.allocated_cpu_by_request < 2 ^ 63
      → ((grant_at lib p gid g.node (add_grant lib (p.free g.node) g, g)).0.free
          a).granted_cpu_by_request
        ≡ booked lib p.nodes by_request
            (grant_at lib p gid g.node (add_grant lib (p.free g.node) g, g)).0.grants
            a
          + share lib p.nodes by_request a old
  unfolding grant_at add_grant booked
  grant_at-overbooked p gid old g a w h small = ground (
    arith,
    allocated-at lib p.nodes w.ordered p.free g a,
    w.supplies a,
    booked-delete lib p.nodes by_request gid p.grants old a w.distinct h,
    booked-le-total lib p.nodes by_request p.grants a,
  )

  -- allocatePool for a container whose key holds a grant already overwrites the grant and does not
  -- take it back: with the books right before, each node has afterwards granted, in CPU by request,
  -- the sum of the grants held at it or below it and, on top, the old grant's share. The request
  -- names both lists, its CPU amounts are 64-bit words, its memory limit is not negative, and the
  -- grants together stay below 2 ^ 63.
  pub allocate_pool-overbooked :
      (p : Policy lib) (c : ContainerRequest) (lr ll : ResourceList) (old : Grant) (a : ℕ)
      {r : Policy lib × Grant}
      → IsAccounted lib p
      → get_requests c ≡ some lr
      → get_limits c ≡ some ll
      → lr.cpu_milli < 2 ^ 64
      → ll.cpu_milli < 2 ^ 64
      → ll.memory < 2 ^ 63
      → load_grant (grant_key c.pod_uid c.container_name) p.grants ≡ some old
      → allocate_pool lib p c ≡ ok r
      → total by_request p.grants + r.1.allocated_cpu_by_request < 2 ^ 63
      → (r.0.free a).granted_cpu_by_request
        ≡ booked lib p.nodes by_request r.0.grants a + share lib p.nodes by_request a old
  allocate_pool-overbooked p c lr ll old a {r} w er el h1 h2 h3 held h small =
      subst
        (λ (r : Policy lib × Grant).
          (r.0.free a).granted_cpu_by_request
          ≡ booked lib p.nodes by_request r.0.grants a + share lib p.nodes by_request a old)
        (allocate_pool-as-grant_at lib p c lr ll w er el h1 h2 h3 h)
        (grant_at-overbooked p (grant_key c.pod_uid c.container_name) old r.1 a w held small)

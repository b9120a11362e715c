-- ===== src/TopologyAware/Supply/Reversible.antt =====
-- Supply.Allocate and Supply.Release of supply.go undo one another.
use cloud_native.Prelude.{◌/◌, ◌^◌, ◌<◌, Bool, some, ◌≡◌, arith}
use cloud_native.TopologyAware.Outcome.{ok}
use cloud_native.TopologyAware.CpuSets.{CpuSetLib}
use cloud_native.TopologyAware.Request.{ResourceList, Request, get_requests, get_limits}
use cloud_native.TopologyAware.Supply.{Supply, Grant, allocate, release}

-- The amounts are not negative as `int`.
pub record IsNonneg (lib : CpuSetLib) (s : Supply lib) : Type 0 where
  pub shared : s.granted_shared < 2 ^ 63
  pub by_request : s.granted_cpu_by_request < 2 ^ 63
  pub by_limit : s.granted_cpu_by_limit < 2 ^ 63
  pub memory : s.granted_memory < 2 ^ 63

-- The request names its lists, their values are 64-bit words and the memory limit is not negative.
pub record IsReadable (req : Request) (lr ll : ResourceList) : Type 0 where
  pub requests : get_requests req.container ≡ some lr
  pub limits : get_limits req.container ≡ some ll
  pub cpu : lr.cpu_milli < 2 ^ 64
  pub cpu_limit : ll.cpu_milli < 2 ^ 64
  pub mem_limit : req.mem_limit < 2 ^ 63

-- What `Allocate` hands out is a word in each field, for the node of the supply.
pub record IsGrantOf (lib : CpuSetLib) (s : Supply lib) (req : Request) (g : Grant) : Type 0 where
  pub node : g.node ≡ s.node
  pub cpus : g.allocated_cpus < 2 ^ 64
  pub by_request : g.allocated_cpu_by_request < 2 ^ 64
  pub by_limit : g.allocated_cpu_by_limit < 2 ^ 64
  pub memory : g.allocated_memory ≡ req.mem_limit / 1024

module _ (lib : CpuSetLib) where
  pub allocate-IsGrantOf :
      (s : Supply lib) (req : Request) (enforce : Bool) {lr ll : ResourceList} {t : Supply lib}
      {g : Grant}
      → IsReadable req lr ll
      → allocate lib s req enforce ≡ ok (t, g)
      → IsGrantOf lib s req g
  unfolding allocate
  allocate-IsGrantOf s req enforce q h = ground arith

  -- Release of the grant that Allocate has made gives back the very supply from before, with memory
  -- enforced or not, where the granted amounts were not negative, the request names both lists, its
  -- CPU amounts are 64-bit words and its memory limit is not negative.
  pub release-allocate :
      (s : Supply lib) (req : Request) (enforce : Bool) {lr ll : ResourceList} {t : Supply lib}
      {g : Grant}
      → IsNonneg lib s
      → IsReadable req lr ll
      → allocate lib s req enforce ≡ ok (t, g)
      → release lib t g ≡ s
  unfolding allocate release
  release-allocate s req enforce w q h = ground arith

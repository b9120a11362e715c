-- ===== src/TopologyAware/Supply/Capacity.antt =====
-- Supply.Allocate of supply.go against plain arithmetic: when it succeeds, and what it never exceeds.
use cloud_native.Prelude.{
  ◌+◌, ◌*◌, ◌/◌, ◌^◌, ◌≤◌, ◌<◌, true, some, ◌≡◌, ◌⊎◌, Bool, false, ◌↔◌, arith,
}
use cloud_native.TopologyAware.Outcome.{is_ok}
use cloud_native.TopologyAware.CpuSets.{CpuSetLib}
use cloud_native.TopologyAware.Request.{ResourceList, Request, get_requests, get_limits}
use cloud_native.TopologyAware.Supply.{Supply, allocate}

-- A supply that has granted no more than it has; no number of it is near the end of `int`.
pub record IsBounded (lib : CpuSetLib) (s : Supply lib) : Type 0 where
  pub capacity : 1000 * lib.size s.sharable < 2 ^ 62
  pub by_request : s.granted_cpu_by_request ≤ 1000 * lib.size s.sharable
  pub shared : s.granted_shared ≡ s.granted_cpu_by_request
  pub by_limit : s.granted_cpu_by_limit < 2 ^ 64
  pub total : s.memory_total < 2 ^ 64
  pub memory : s.granted_memory ≤ s.memory_total

-- The request names its lists, and its CPU request and memory limit are not negative.
pub record IsPlain (req : Request) (lr ll : ResourceList) : Type 0 where
  pub requests : get_requests req.container ≡ some lr
  pub limits : get_limits req.container ≡ some ll
  pub cpu : lr.cpu_milli < 2 ^ 62
  pub cpu_limit : ll.cpu_milli < 2 ^ 63
  pub mem_limit : req.mem_limit < 2 ^ 63

module _ (lib : CpuSetLib) where
  pub allocate-ok_iff :
      (s : Supply lib) (req : Request) (enforce : Bool) {lr ll : ResourceList}
      → IsBounded lib s
      → IsPlain req lr ll
      → (is_ok (allocate lib s req enforce) ≡ true) ↔ (
          (s.granted_cpu_by_request + lr.cpu_milli ≤ 1000 * lib.size s.sharable)
          × ((enforce ≡ false) ⊎ (s.granted_memory + req.mem_limit / 1024 ≤ s.memory_total)))
  unfolding allocate
  allocate-ok_iff s req enforce b p = ground arith

-- ===== src/TopologyAware/Hooks/Lifecycle.antt =====
-- PreCreateContainerHook and PostStopContainerHook of topology_aware.go, one after the other.
use cloud_native.Prelude.{
  ℕ, ◌^◌, ◌<◌, false, String, Option, none, some, ◌≡◌, refl, ap, ◌∙◌, str_eq,
}
use cloud_native.TopologyAware.Outcome.{ok, >>=-eq-ok}
use cloud_native.TopologyAware.CpuSets.{CpuSetLib}
use cloud_native.TopologyAware.Request.{ContainerRequest, ResourceList, get_requests, get_limits}
use cloud_native.TopologyAware.Supply.{Grant}
use cloud_native.TopologyAware.Policy.{Policy}
use cloud_native.TopologyAware.Hooks.{
  Allocation, KnownContainer, parse_cgroup_for_qos_class, is_best_effort, grant_key, load_grant,
  delete_grant, allocate_pool, fill_allocation, pre_create_container_hook, release_pool,
  release_resources, post_stop_container_hook,
}
use cloud_native.TopologyAware.Hooks.Undo.{IsSettled, release_pool-allocate_pool}

module _ (lib : CpuSetLib) where
  fill_allocation-policy :
      (p q : Policy lib) (g : Option Grant) {alloc : Option Allocation}
      → fill_allocation lib p g ≡ ok (q, alloc)
      → p ≡ q
  unfolding fill_allocation
  fill_allocation-policy p q none h = cc
  fill_allocation-policy p q (some g) h = cc

  -- What a create hook that allocates leaves behind
  pre_create_container_hook-inv :
      (p q : Policy lib) (c : ContainerRequest) {alloc : Option Allocation}
      → is_best_effort (parse_cgroup_for_qos_class c.cgroup_parent) ≡ false
      → pre_create_container_hook lib p c ≡ ok (q, alloc)
      → (g : Grant) × (allocate_pool lib p c ≡ ok (q, g))
  unfolding pre_create_container_hook
  pre_create_container_hook-inv p q c qos h =
      let (r, allocated, filled) =
        >>=-eq-ok (allocate_pool lib p c)
          (λ r.
            fill_allocation lib r.0 (load_grant (grant_key c.pod_uid c.container_name) r.0.grants))
          (rw qos at h) in
      (
        r.1,
        allocated
            ∙ ap (λ q. ok (q, r.1))
                (fill_allocation-policy r.0 q
                  (load_grant (grant_key c.pod_uid c.container_name) r.0.grants) filled),
      )

  -- After PreCreateContainerHook has allocated for a container, PostStopContainerHook for the same
  -- container, found in the cache by its id, succeeds, gives every node back the very supply it had
  -- before, and leaves the old grants less those of the container's key. The pod is not best
  -- effort, the nodes are in order, the granted amounts before are not negative, the identifiers
  -- are not empty, the request names both lists, its CPU amounts are 64-bit words and its memory
  -- limit is not negative.
  pub post_stop_container_hook-pre_create_container_hook :
      (lookup : String → Option KnownContainer) (p q : Policy lib) (c d : ContainerRequest)
      (lr ll : ResourceList) (k : KnownContainer) {alloc : Option Allocation}
      → IsSettled lib p
      → get_requests c ≡ some lr
      → get_limits c ≡ some ll
      → lr.cpu_milli < 2 ^ 64
      → ll.cpu_milli < 2 ^ 64
      → ll.memory < 2 ^ 63
      → is_best_effort (parse_cgroup_for_qos_class c.cgroup_parent) ≡ false
      → pre_create_container_hook lib p c ≡ ok (q, alloc)
      → str_eq c.container_id "" ≡ false
      → str_eq c.pod_uid "" ≡ false
      → str_eq d.container_id "" ≡ false
      → lookup d.container_id ≡ some k
      → k.name ≡ c.container_name
      → k.pod_uid ≡ some c.pod_uid
      → str_eq k.id "" ≡ false
      → (t : Policy lib) × (post_stop_container_hook lib lookup q d ≡ ok t)
        × ((a : ℕ) → t.free a ≡ p.free a)
        × (t.grants ≡ delete_grant (grant_key c.pod_uid c.container_name) p.grants)
  unfolding post_stop_container_hook release_resources
  post_stop_container_hook-pre_create_container_hook lookup p q c d lr ll k w er el h1 h2 h3 qos h
        id uid stop found name pod known =
      let (g, allocated) = pre_create_container_hook-inv p q c qos h in
      let undone = release_pool-allocate_pool lib p c lr ll w er el h1 h2 h3 id uid allocated in
      (
        (release_pool lib q c).0,
        rw (stop, found, pod, known, uid, name, id) refl,
        undone.supplies,
        undone.grants,
      )

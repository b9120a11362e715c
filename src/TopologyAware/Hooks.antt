-- ===== src/TopologyAware/Hooks.antt =====
-- The hooks of topology_aware.go: a container gets a grant when it is created and gives it back when
-- it stops.
pub mod Undo
pub mod Booked
pub mod Account
pub mod Returned
pub mod Overwrite
pub mod Served
pub mod Lifecycle
use Prim.Native.String.{◌++◌ as str_append}
use cloud_native.Prelude.{
  ℕ, Bool, true, false, not, ◌||◌, String, Option, none, some, List, [], ◌∷◌, str_eq, if◌then◌else◌,
}
use cloud_native.TopologyAware.Outcome.{Outcome, ok, err, panic, no_grant, missing_info, ◌>>=◌}
use cloud_native.TopologyAware.CpuSets.{CpuSetLib}
use cloud_native.TopologyAware.Request.{ContainerRequest, Request, new_request}
use cloud_native.TopologyAware.Request.Devices.{Text, codes, is_empty, has_infix}
use cloud_native.TopologyAware.Supply.{Grant, MemInfo, Supply, allocate, release}
use cloud_native.TopologyAware.Tree.{memory_info}
use cloud_native.TopologyAware.Propagate.{set_free, propagate_resource_to_parent}
use cloud_native.TopologyAware.Policy.{Policy}
use cloud_native.TopologyAware.Selection.{select_pool}

-- `PodQOSClass`; `unset` is the empty text.
pub data QosClass : Type 0 where
  best_effort burstable guaranteed unset : QosClass

unfoldable pub parse_cgroup_for_qos_class : Text → QosClass
parse_cgroup_for_qos_class dir =
    if is_empty dir
    then unset
    else if has_infix (codes "besteffort") dir
    then best_effort
    else if has_infix (codes "burstable") dir
    then burstable
    else guaranteed

abbrev pub is_best_effort : QosClass → Bool
is_best_effort best_effort = true
is_best_effort burstable = false
is_best_effort guaranteed = false
is_best_effort unset = false

-- The `sync.Map` of grants: `Load`, `Store` and `Delete`.
unfoldable pub load_grant : String → List (String × Grant) → Option Grant
load_grant gid [] = none
load_grant gid ((k, g) ∷ grants) =
    let rest = load_grant gid grants in if str_eq k gid then some g else rest

unfoldable pub delete_grant : String → List (String × Grant) → List (String × Grant)
delete_grant gid [] = []
delete_grant gid ((k, g) ∷ grants) =
    let rest = delete_grant gid grants in if str_eq k gid then rest else (k, g) ∷ rest

unfoldable pub store_grant : String → Grant → List (String × Grant) → List (String × Grant)
unfolding delete_grant
store_grant gid g grants = (gid, g) ∷ delete_grant gid grants

-- `PodMeta.UID + ":" + ContainerMeta.Name`
unfoldable pub grant_key : String → String → String
grant_key uid name = str_append uid (str_append ":" name)

-- What `SetCPUSetCpus` and `SetCPUSetMems` leave in an allocation.
pub record Allocation : Type 0 where
  pub cpuset_cpus : String
  pub cpuset_mems : Option String

-- What the cache knows of a container; `pod_uid` is that of its pod, if the cache has it.
pub record KnownContainer : Type 0 where
  pub id : String
  pub name : String
  pub pod_uid : Option String

module _ (lib : CpuSetLib) where
  -- `grant.Release()` acts on the supply of the grant's node.
  unfoldable pub release_grant : Policy lib → Grant → Policy lib
  release_grant p g = record p { free = set_free lib p.free g.node (release lib (p.free g.node) g) }

  -- `supply.Allocate` at a pool, then the grant is stored and booked at the nodes above.
  unfoldable pub grant_at : Policy lib → String → ℕ → Supply lib × Grant → Policy lib × Grant
  unfolding store_grant
  grant_at p gid pool (s, g) = (
    record p {
      free = propagate_resource_to_parent lib p.nodes g true (set_free lib p.free pool s);
      grants = store_grant gid g p.grants;
    },
    g,
  )

  unfoldable pub allocate_at :
      Policy lib → ContainerRequest → Request → ℕ → Outcome (Policy lib × Grant)
  unfolding grant_at grant_key
  allocate_at p c req pool = do
    r ← allocate lib (p.free pool) req p.enable_memory_topology
    ok (grant_at p (grant_key c.pod_uid c.container_name) pool r)

  -- Containers of the system take from the root.
  unfoldable pub choose_pool : Policy lib → ContainerRequest → Request → Outcome ℕ
  choose_pool p c req =
      if str_eq c.pod_namespace "kube-system" then ok p.root else select_pool lib p req

  allocate_request : Policy lib → ContainerRequest → Option Request → Outcome (Policy lib × Grant)
  unfolding choose_pool allocate_at
  allocate_request p c none = panic
  allocate_request p c (some req) = do pool ← choose_pool p c req; allocate_at p c req pool

  -- The nil request is dereferenced on each way: by `Allocate`, or by the filter's log lines.
  unfoldable pub allocate_pool : Policy lib → ContainerRequest → Outcome (Policy lib × Grant)
  unfolding allocate_request
  allocate_pool p c = allocate_request p c (new_request c)

  mem_set_of : Option (MemInfo lib) → lib.CpuSet
  mem_set_of none = lib.new
  mem_set_of (some info) = info.mem_set

  -- What the hook answers: the CPUs and, with memory topology, the memory nodes of the grant's node.
  fill_allocation : Policy lib → Option Grant → Outcome (Policy lib × Option Allocation)
  unfolding mem_set_of
  fill_allocation p none = err no_grant
  fill_allocation p (some g) = ok (
    p,
    some (record {
      cpuset_cpus = lib.format (p.free g.node).sharable;
      cpuset_mems =
          if p.enable_memory_topology
          then some (lib.format (mem_set_of (memory_info lib p.nodes (p.free g.node).node)))
          else none;
    }),
  )

  -- After an error the policy is as before, so it is not returned beside it. Metrics and logs are
  -- left out.
  unfoldable pub pre_create_container_hook :
      Policy lib → ContainerRequest → Outcome (Policy lib × Option Allocation)
  unfolding fill_allocation parse_cgroup_for_qos_class load_grant grant_key
  pre_create_container_hook p c =
      if is_best_effort (parse_cgroup_for_qos_class c.cgroup_parent) then ok (p, none) else do
        r ← allocate_pool p c
        fill_allocation r.0 (load_grant (grant_key c.pod_uid c.container_name) r.0.grants)

  release_found : Policy lib → String → Option Grant → Policy lib × Option Grant
  unfolding release_grant delete_grant
  release_found p gid none = (p, none)
  release_found p gid (some g) =
      let q = record p { free = propagate_resource_to_parent lib p.nodes g false p.free } in
      let t = release_grant q g in (record t { grants = delete_grant gid t.grants }, some g)

  unfoldable pub release_pool : Policy lib → ContainerRequest → Policy lib × Option Grant
  unfolding release_found load_grant grant_key
  release_pool p c =
      if str_eq c.container_id "" || str_eq c.pod_uid ""
      then (p, none)
      else release_found p (grant_key c.pod_uid c.container_name)
          (load_grant (grant_key c.pod_uid c.container_name) p.grants)

  unfoldable pub release_resources : Policy lib → ContainerRequest → Outcome (Policy lib)
  unfolding release_pool
  release_resources p c =
      if str_eq c.container_id "" || str_eq c.pod_uid ""
      then err missing_info
      else ok (release_pool p c).0

  -- The context that the stop hook builds
  abbrev pub full_context : KnownContainer → String → ContainerRequest
  full_context k uid = record {
    pod_uid = uid;
    pod_namespace = "";
    container_id = k.id;
    container_name = k.name;
    cgroup_parent = [];
    container_envs = none;
    estimated_requirements = none;
  }

  release_known : Policy lib → Option KnownContainer → Outcome (Policy lib)
  unfolding release_resources
  release_known p none = ok p
  release_known p (some k) = elim k.pod_uid [
    | none ↦ ok p
    | some uid ↦ release_resources p (full_context k uid)
  ]

  -- `lookup` is `LookupContainer` of the cache. The hook answers no allocation.
  unfoldable pub post_stop_container_hook :
      (String → Option KnownContainer) → Policy lib → ContainerRequest → Outcome (Policy lib)
  unfolding release_known
  post_stop_container_hook lookup p c =
      if str_eq c.container_id "" then ok p else release_known p (lookup c.container_id)

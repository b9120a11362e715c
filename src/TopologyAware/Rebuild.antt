-- ===== src/TopologyAware/Rebuild.antt =====
-- state_rebuild.go: after a restart the grants are rebuilt from the containers in the cache.
pub mod Match
pub mod Account
use cloud_native.Prelude.{
  ℕ, ◌+◌, ◌*◌, ◌/◌, Bool, true, false, ◌&&◌, ◌||◌, String, Option, none, some, List, [], ◌∷◌, ◌==◌,
  str_eq, if◌then◌else◌,
}
use cloud_native.Word64.{mul64, is_pos, slt}
use cloud_native.TopologyAware.CpuSets.{CpuSetLib}
use cloud_native.TopologyAware.Request.{ResourceList, ContainerRequest}
use cloud_native.TopologyAware.Supply.{Grant, new_grant}
use cloud_native.TopologyAware.Tree.{Nodes, Free, root_distance}
use cloud_native.TopologyAware.Propagate.{set_free, add_grant, propagate_resource_to_parent}
use cloud_native.TopologyAware.Policy.{Policy}
use cloud_native.TopologyAware.Hooks.{grant_key, load_grant, store_grant}

pub data ContainerState : Type 0 where
  created running exited unknown creating stale : ContainerState

pub record LinuxResources : Type 0 where
  pub cpu_shares : ℕ
  pub cpu_quota : ℕ
  pub cpu_period : ℕ
  pub memory_limit : ℕ

-- What the rebuild reads of a `cache.Container`; `pod_uid` is that of its pod, if the cache has it.
pub record CachedContainer : Type 0 where
  pub id : String
  pub name : String
  pub namespace : String
  pub pod_uid : Option String
  pub state : ContainerState
  pub cpuset_cpus : String
  pub requests : Option ResourceList
  pub limits : Option ResourceList
  pub linux : Option LinuxResources

abbrev pub positive : ℕ → ℕ
positive x = if is_pos x then x else 0

cpu_of : Option ResourceList → ℕ
cpu_of none = 0
cpu_of (some l) = positive l.cpu_milli

memory_of : Option ResourceList → ℕ
memory_of none = 0
memory_of (some l) = positive l.memory

-- `int64(float64(a)/float64(b) + 0.5)` for positive `a` and `b`. The float64 arithmetic is exact
-- enough for this while `a` is below 2 ^ 51.
unfoldable pub round_div : ℕ → ℕ → ℕ
round_div a b = (2 * a + b) / (2 * b)

-- Milli-CPUs by request and by limit, and bytes
pub record Amounts : Type 0 where
  pub cpu_request : ℕ
  pub cpu_limit : ℕ
  pub memory_bytes : ℕ

-- The estimate from the Linux resources, for what the requirements left at 0
estimate : Amounts → Option LinuxResources → Amounts
unfolding round_div
estimate m none = m
estimate m (some l) = record {
  cpu_request =
      if m.cpu_request == 0 && is_pos l.cpu_shares
      then round_div (mul64 l.cpu_shares 1000) 1024
      else m.cpu_request;
  cpu_limit =
      if m.cpu_limit == 0 && (is_pos l.cpu_quota && is_pos l.cpu_period)
      then round_div (mul64 l.cpu_quota 1000) l.cpu_period
      else m.cpu_limit;
  memory_bytes =
      if m.memory_bytes == 0 && is_pos l.memory_limit then l.memory_limit else m.memory_bytes;
}

unfoldable pub amounts_of : CachedContainer → Amounts
unfolding cpu_of memory_of estimate
amounts_of c =
    let m : Amounts = record {
      cpu_request = cpu_of c.requests;
      cpu_limit = cpu_of c.limits;
      memory_bytes = memory_of c.requests;
    } in
    if m.cpu_request == 0 || m.cpu_limit == 0 then estimate m c.linux else m

-- The context that the grant keeps
unfoldable pub context_of : CachedContainer → String → ContainerRequest
context_of c uid = record {
  pod_uid = uid;
  pod_namespace = "";
  container_id = c.id;
  container_name = c.name;
  cgroup_parent = [];
  container_envs = none;
  estimated_requirements = none;
}

unfoldable pub create_grant_from_container : CachedContainer → String → ℕ → Grant
unfolding new_grant amounts_of context_of
create_grant_from_container c uid target =
    let m = amounts_of c in
    record (new_grant target (context_of c uid) false 0) {
      allocated_cpus = positive m.cpu_request;
      allocated_cpu_by_request = positive m.cpu_request;
      allocated_cpu_by_limit = positive m.cpu_limit;
      allocated_memory = if is_pos m.memory_bytes then m.memory_bytes / 1024 else 0;
    }

-- Created and running containers hold resources.
abbrev pub is_live : ContainerState → Bool
is_live created = true
is_live running = true
is_live exited = false
is_live unknown = false
is_live creating = false
is_live stale = false

module _ (lib : CpuSetLib) where
  -- The best match so far is at least as deep as `node`.
  no_deeper : Nodes lib → Option ℕ → ℕ → Bool
  no_deeper nodes none node = false
  no_deeper nodes (some best) node =
      if slt (root_distance lib nodes best) (root_distance lib nodes node) then false else true

  -- The loop of `findNodeByCPUSet`
  unfoldable pub best_match : Policy lib → lib.CpuSet → Option ℕ → List ℕ → Option ℕ
  unfolding no_deeper
  best_match p cpus best [] = best
  best_match p cpus best (node ∷ pools) =
      best_match p cpus
        (if lib.is_subset_of cpus (p.free node).sharable
          then if no_deeper p.nodes best node then best else some node
          else best)
        pools

  match_parsed : Policy lib → Option lib.CpuSet → Option ℕ
  unfolding best_match
  match_parsed p none = none
  match_parsed p (some cpus) = best_match p cpus none p.pools

  unfoldable pub find_node_by_cpu_set : Policy lib → String → Option ℕ
  unfolding match_parsed
  find_node_by_cpu_set p s = match_parsed p (lib.parse s)

  unfoldable pub update_node_resource_usage : Nodes lib → Free lib → ℕ → Grant → Free lib
  update_node_resource_usage nodes free node g =
      propagate_resource_to_parent lib nodes g true
        (set_free lib free node (add_grant lib (free node) g))

  store_rebuilt : Policy lib → CachedContainer → String → ℕ → Option Grant → Policy lib
  unfolding update_node_resource_usage create_grant_from_container
  store_rebuilt p c uid target (some held) = p
  store_rebuilt p c uid target none =
      let g = create_grant_from_container c uid target in
      record p {
        free = update_node_resource_usage p.nodes p.free target g;
        grants = store_grant (grant_key uid c.name) g p.grants;
      }

  -- A container with no pod in the cache is an error, which the caller logs.
  unfoldable pub rebuild_container_allocation :
      Policy lib → CachedContainer → ℕ → Option String → Policy lib
  unfolding store_rebuilt
  rebuild_container_allocation p c target none = p
  rebuild_container_allocation p c target (some uid) =
      store_rebuilt p c uid target (load_grant (grant_key uid c.name) p.grants)

  rebuild_at : Policy lib → CachedContainer → Option ℕ → Policy lib
  unfolding rebuild_container_allocation
  rebuild_at p c none = p
  rebuild_at p c (some target) = rebuild_container_allocation p c target c.pod_uid

  -- One round of the loop
  unfoldable pub rebuild_one : Policy lib → CachedContainer → Policy lib
  unfolding rebuild_at
  rebuild_one p c =
      if is_live c.state
      then if str_eq c.namespace "kube-system"
        then p
        else if str_eq c.cpuset_cpus ""
        then p
        else rebuild_at p c (find_node_by_cpu_set p c.cpuset_cpus)
      else p

  -- The containers come in the order of a Go map, so in any.
  unfoldable pub rebuild_allocations_from_cache : Policy lib → List CachedContainer → Policy lib
  rebuild_allocations_from_cache p [] = p
  rebuild_allocations_from_cache p (c ∷ containers) =
      rebuild_allocations_from_cache (rebuild_one p c) containers

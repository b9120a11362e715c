-- ===== src/PolicyManager.antt =====
-- policy/policy.go: the manager that runs the hooks of all registered policies and merges what they
-- allocate into the response.
pub mod Context
pub mod Merge
mod Examples
use cloud_native.Prelude.{Bool, true, false, Option, none, some, List, [], ◌∷◌, ◌++◌, if◌then◌else◌}
use cloud_native.TopologyAware.Outcome.{Outcome, panic, err, ok}
use cloud_native.TopologyAware.Request.Devices.{Text}
use cloud_native.Cache.Table.{find, put}
use cloud_native.Cache.Resources.{LinuxContainerResources}
use cloud_native.Cache.Messages.{ContainerMetadata, ContainerResourceHookRequest}
use cloud_native.Cache.Store.{Cache}
use cloud_native.Server.HookManager.{ContainerResourceHookResponse, HookManager}
use Context.{ContainerContext, CgroupEnv, from_proxy, stop_context}
use Merge.{merge_allocations}

-- A policy's hooks, as changes to the state `S` that all policies together have. What they allocate
-- may be nil.
pub record Policy (S : Type 0) : Type 0 where
  pub name : Text
  pub pre_create_container_hook :
      ContainerContext → Cache → S → S × Outcome (Option (Option LinuxContainerResources))
  pub post_stop_container_hook :
      ContainerContext → Cache → S → S × Outcome (Option (Option LinuxContainerResources))
  pub rebuild_allocations_from_cache : Cache → S → S

-- `Resources` of an Allocation, which may be nil
abbrev pub Allocation : Type 0
Allocation = Option LinuxContainerResources

-- A new map of policies has no policy twice: the first with a name stays.
known_or_put :
    {S : Type 0} → Option (Policy S) → Policy S → List (Text × Policy S) → List (Text × Policy S)
unfolding put
known_or_put (some known) p policies = policies
known_or_put none p policies = put policies p.name p

unfoldable pub register_policy :
    {S : Type 0} → Policy S → List (Text × Policy S) → List (Text × Policy S)
unfolding known_or_put
register_policy p policies = known_or_put (find policies p.name) p policies

unfoldable pub get_policy : {S : Type 0} → Text → List (Text × Policy S) → Option (Policy S)
get_policy name policies = find policies name

unfoldable pub list_policies : {S : Type 0} → List (Text × Policy S) → List (Policy S)
list_policies [] = []
list_policies ((name, p) ∷ policies) = p ∷ list_policies policies

add_alloc : Option Allocation → List Allocation → List Allocation
add_alloc none allocs = allocs
add_alloc (some alloc) allocs = alloc ∷ allocs

-- One round of the loop over the policies: an error is logged and the policy skipped.
collect :
    {S : Type 0}
    → S × Outcome (Option Allocation)
    → (S → Outcome (S × List Allocation))
    → Outcome (S × List Allocation)
unfolding add_alloc
collect (s, panic) rest = panic
collect (s, err e) rest = rest s
collect (s, ok alloc) rest = elim (rest s) [
  | panic ↦ panic
  | err e ↦ err e
  | ok later ↦ ok (later.0, add_alloc alloc later.1)
]

-- The loop over the policies; the order is that of a Go map, so any.
unfoldable pub run_hooks :
    {S : Type 0}
    → (Policy S → S → S × Outcome (Option Allocation))
    → List (Policy S)
    → S
    → Outcome (S × List Allocation)
unfolding collect
run_hooks hook [] s = ok (s, [])
run_hooks hook (p ∷ policies) s = collect (hook p s) (run_hooks hook policies)

-- The response that starts from the request
abbrev pub response_of : ContainerResourceHookRequest → ContainerResourceHookResponse
response_of req = record {
  container_annotations = some req.container_annotations;
  container_resources = req.container_resources;
  pod_cgroup_parent = req.pod_cgroup_parent;
  container_envs = some req.container_envs;
}

finish_hook :
    {S : Type 0}
    → S
    → ContainerResourceHookRequest
    → Outcome (S × List Allocation)
    → S × Outcome (Option ContainerResourceHookResponse)
unfolding merge_allocations
finish_hook s req panic = (s, panic)
finish_hook s req (err e) = (s, err e)
finish_hook s req (ok (t, allocs)) = (t, ok (some (merge_allocations allocs (response_of req))))

module _ {S : Type 0} (env : CgroupEnv) (policies : List (Text × Policy S)) where
  unfoldable pub pre_create_container_hook :
      ContainerResourceHookRequest → Cache → S → S × Outcome (Option ContainerResourceHookResponse)
  unfolding finish_hook run_hooks list_policies from_proxy
  pre_create_container_hook req c s =
      let context = from_proxy env req in
      finish_hook s req
        (run_hooks (λ p s. p.pre_create_container_hook context c s) (list_policies policies) s)

  -- A nil ContainerMeta ends the program.
  stop_with :
      Option ContainerMetadata
      → ContainerResourceHookRequest
      → Cache
      → S
      → S × Outcome (Option ContainerResourceHookResponse)
  unfolding finish_hook run_hooks list_policies stop_context
  stop_with none req c s = (s, panic)
  stop_with (some meta) req c s =
      let context = stop_context meta.id in
      finish_hook s req
        (run_hooks (λ p s. p.post_stop_container_hook context c s) (list_policies policies) s)

  unfoldable pub post_stop_container_hook :
      ContainerResourceHookRequest → Cache → S → S × Outcome (Option ContainerResourceHookResponse)
  unfolding stop_with
  post_stop_container_hook req c s = stop_with req.container_meta req c s

  -- It runs the hooks of PostStop.
  unfoldable pub pre_remove_container_hook :
      ContainerResourceHookRequest → Cache → S → S × Outcome (Option ContainerResourceHookResponse)
  unfolding stop_with
  pre_remove_container_hook req c s = stop_with req.container_meta req c s

  rebuild_all : List (Policy S) → Cache → S → S
  rebuild_all [] c s = s
  rebuild_all (p ∷ ps) c s = rebuild_all ps c (p.rebuild_allocations_from_cache c s)

  unfoldable pub rebuild_allocations_from_cache : Cache → S → S
  unfolding rebuild_all list_policies
  rebuild_allocations_from_cache c s = rebuild_all (list_policies policies) c s

  -- The manager as the servers see it
  unfoldable pub policy_manager : HookManager S
  unfolding pre_create_container_hook post_stop_container_hook pre_remove_container_hook
      rebuild_allocations_from_cache
  policy_manager = record {
    pre_create_container_hook = pre_create_container_hook;
    post_stop_container_hook = post_stop_container_hook;
    pre_remove_container_hook = pre_remove_container_hook;
    rebuild_allocations_from_cache = rebuild_allocations_from_cache;
  }

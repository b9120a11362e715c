-- ===== src/Server/Dispatcher.antt =====
-- server/dispatcher: a runtime request is shown to the hooks, rewritten by their response, sent to
-- the runtime, and noted in the cache. The requests are those of the CRI for containers.
pub mod Resources
pub mod Agrees
pub mod Pods
use cloud_native.Prelude.{Bool, true, false, Option, none, some, List, [], ◌∷◌, if◌then◌else◌}
use cloud_native.TopologyAware.Outcome.{Outcome, panic, err, ok, runtime_error}
use cloud_native.TopologyAware.Request.Devices.{Text, codes, is_empty}
use cloud_native.Cache.Table.{find, put}
use cloud_native.Cache.Resources.{LinuxContainerResources}
use cloud_native.Cache.Messages.{
  PodSandboxMetadata, ContainerMetadata, ContainerResourceHookRequest,
}
use cloud_native.Cache.Pods.{Pod}
use cloud_native.Cache.Containers.{container_hook_request}
use cloud_native.Cache.Store.{Cache, insert_container, delete_container, lookup_pod, logged}
use cloud_native.Server.HookManager.{ContainerResourceHookResponse, HookManager}
use Resources.{CriResources, transfer_to_cri_resources, transfer_to_hook_resources}

-- The fields of CreateContainerRequest that are read or written. A nil Config reads as empty.
pub record CreateContainerRequest : Type 0 where
  pub pod_sandbox_id : Text
  pub name : Text
  pub labels : List (Text × Text)
  pub annotations : List (Text × Text)
  pub envs : List (Text × Text)
  pub resources : Option CriResources
  pub sandbox_cgroup_parent : Text

put_envs : List (Text × Text) → List (Text × Text) → List (Text × Text)
put_envs [] res = res
put_envs ((key, value) ∷ envs) res = put_envs envs (put res key value)

unfoldable pub transfer_cri_container_envs_to_map : List (Text × Text) → List (Text × Text)
unfolding put_envs
transfer_cri_container_envs_to_map envs = put_envs envs []

unfoldable pub build_container_resource_hook_request :
    Pod
    → ContainerMetadata
    → List (Text × Text)
    → Option LinuxContainerResources
    → List (Text × Text)
    → ContainerResourceHookRequest
build_container_resource_hook_request pod meta annotations resources envs = record {
  pod_meta =
      some (record { name = pod.name; uid = pod.uid; namespace = pod.namespace; id = pod.id });
  pod_resources = pod.linux_req;
  container_meta = some meta;
  container_annotations = annotations;
  container_resources = resources;
  pod_annotations = pod.annotations;
  pod_labels = pod.labels;
  pod_cgroup_parent = pod.cgroup_parent;
  container_envs = envs;
}

build_for : CreateContainerRequest → Option Pod → Option ContainerResourceHookRequest
unfolding build_container_resource_hook_request transfer_to_hook_resources
    transfer_cri_container_envs_to_map
build_for req none = none
build_for req (some pod) = some (
    build_container_resource_hook_request pod (record { name = req.name; id = [] }) req.annotations
      (transfer_to_hook_resources req.resources) (transfer_cri_container_envs_to_map req.envs))

-- `none` is nil: the pod is not known.
unfoldable pub parse_cri_create_container_request :
    CreateContainerRequest → Cache → Option ContainerResourceHookRequest
unfolding build_for lookup_pod
parse_cri_create_container_request req c = build_for req (lookup_pod req.pod_sandbox_id c)

-- The request of a stop names the container and nothing else.
unfoldable pub parse_stop_container_request : Text → ContainerResourceHookRequest
parse_stop_container_request id = record {
  pod_meta = none;
  container_meta = some (record { name = []; id = id });
  container_annotations = [];
  container_resources = none;
  pod_resources = none;
  pod_annotations = [];
  pod_labels = [];
  pod_cgroup_parent = [];
  container_envs = [];
}

-- The label that a pod opts out with is set.
unfoldable pub skip_tap_handle : List (Text × Text) → Bool
skip_tap_handle labels = elim (find labels (codes "tap.kunpeng.huawei.com/skip")) [
  | none ↦ false
  | some value ↦ true
]

-- The request to the runtime and the hook request, which a response rewrites together
abbrev pub Requests : Type 0
Requests = CreateContainerRequest × ContainerResourceHookRequest

fill_annotations : Option (List (Text × Text)) → Requests → Requests
fill_annotations none r = r
fill_annotations (some a) (proxy, hook) =
    (record proxy { annotations = a }, record hook { container_annotations = a })

fill_resources : Option LinuxContainerResources → Requests → Requests
unfolding transfer_to_cri_resources
fill_resources none r = r
fill_resources (some res) (proxy, hook) = (
  record proxy { resources = transfer_to_cri_resources (some res) },
  record hook { container_resources = some res },
)

fill_parent : Text → Requests → Requests
fill_parent parent (proxy, hook) = if is_empty parent then (proxy, hook) else (
  record proxy { sandbox_cgroup_parent = parent },
  record hook { pod_cgroup_parent = parent },
)

or_no_envs : Option (List (Text × Text)) → List (Text × Text)
or_no_envs none = []
or_no_envs (some envs) = envs

fill_envs : Option (List (Text × Text)) → Requests → Requests
unfolding or_no_envs
fill_envs envs (proxy, hook) =
    (record proxy { envs = or_no_envs envs }, record hook { container_envs = or_no_envs envs })

unfoldable pub backfill_container_request : ContainerResourceHookResponse → Requests → Requests
unfolding fill_annotations fill_resources fill_parent fill_envs
backfill_container_request resp r = fill_envs resp.container_envs (
    fill_parent resp.pod_cgroup_parent
      (fill_resources resp.container_resources (fill_annotations resp.container_annotations r)))

-- BackfillRequest: an error of the hook, or a nil response, changes nothing.
backfill : Outcome (Option ContainerResourceHookResponse) → Requests → Outcome Requests
unfolding backfill_container_request
backfill panic r = panic
backfill (err e) r = ok r
backfill (ok none) r = ok r
backfill (ok (some resp)) r = ok (backfill_container_request resp r)

-- The backend: an id is the answer to a creation that succeeds, and a stop succeeds or not.
pub record Runtime (R : Type 0) : Type 0 where
  pub create_container : CreateContainerRequest → R → R × Option Text
  pub stop_container : Text → R → R × Bool

-- InsertIntoCacheIfNeed, where an error is logged
unfoldable pub insert_if_need : Text → ContainerResourceHookRequest → Cache → Outcome Cache
unfolding insert_container
insert_if_need id hook c = logged c (insert_container id (container_hook_request hook) c)

-- The hook requests that are inserted: none where the pod is not known
note_created : Option ContainerResourceHookRequest → Text → Cache → Outcome Cache
unfolding insert_if_need
note_created none id c = ok c
note_created (some hook) id c = insert_if_need id hook c

module _ {S R : Type 0} (manager : HookManager S) (runtime : Runtime R) where
  -- Dispatch, then the backfill, for a request that is parsed
  unfoldable pub shown :
      CreateContainerRequest → ContainerResourceHookRequest → Cache → S → S × Outcome Requests
  unfolding backfill skip_tap_handle
  shown req hook c s =
      if skip_tap_handle req.labels
      then (s, ok (req, hook))
      else let (t, response) = manager.pre_create_container_hook hook c s in
        (t, backfill response (req, hook))

  created : Option ContainerResourceHookRequest → Cache → R × Option Text → R × Outcome Cache
  unfolding note_created
  created hook c (r, none) = (r, err runtime_error)
  created hook c (r, some id) = (r, note_created hook id c)

  -- The call of the backend, with what the hooks left
  forward : S × Outcome Requests → Cache → R → S × R × Outcome Cache
  unfolding created
  forward (s, panic) c r = (s, r, panic)
  forward (s, err e) c r = (s, r, err e)
  forward (s, ok (proxy, hook)) c r =
      let (q, answer) = created (some hook) c (runtime.create_container proxy r) in (s, q, answer)

  intercept_parsed :
      CreateContainerRequest
      → Option ContainerResourceHookRequest
      → S × R × Cache
      → S × R × Outcome Cache
  unfolding forward shown created
  intercept_parsed req none (s, r, c) =
      let (q, answer) = created none c (runtime.create_container req r) in (s, q, answer)
  intercept_parsed req (some hook) (s, r, c) = forward (shown req hook c s) c r

  -- CreateContainer of the CRI server: InterceptRuntimeRequest for PreCreateContainer. On an error
  -- the cache stays as it is.
  unfoldable pub intercept_create : CreateContainerRequest → S × R × Cache → S × R × Outcome Cache
  unfolding intercept_parsed parse_cri_create_container_request
  intercept_create req (s, r, c) =
      intercept_parsed req (parse_cri_create_container_request req c) (s, r, c)

  -- StopContainer of the CRI server: the hook runs before the backend is asked, and the deferred
  -- deletion whatever it answers. The hook's response fills nothing in.
  unfoldable pub intercept_stop : Text → S × R × Cache → S × R × Cache × Bool
  unfolding parse_stop_container_request delete_container
  intercept_stop id (s, r, c) =
      let (t, response) = manager.post_stop_container_hook (parse_stop_container_request id) c s in
      let (q, stopped) = runtime.stop_container id r in (t, q, delete_container id c, stopped)

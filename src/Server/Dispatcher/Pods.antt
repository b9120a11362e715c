-- ===== src/Server/Dispatcher/Pods.antt =====
-- The sandboxes of pods on the CRI path: InterceptRuntimeRequest for RunPodSandbox and
-- StopPodSandbox, and PreRunPodSandboxHook of policy/policy.go.
pub mod Transparent
use cloud_native.Prelude.{Bool, true, false, Option, none, some, List, [], ◌∷◌, if◌then◌else◌}
use cloud_native.TopologyAware.Outcome.{Outcome, panic, err, ok, runtime_error}
use cloud_native.TopologyAware.Request.Devices.{Text, is_empty}
use cloud_native.Cache.Resources.{LinuxContainerResources}
use cloud_native.Cache.Messages.{PodSandboxMetadata, PodSandboxHookRequest}
use cloud_native.Cache.Pods.{pod_hook_request}
use cloud_native.Cache.Store.{Cache, insert_pod, delete_pod, logged}
use cloud_native.Server.Dispatcher.{skip_tap_handle}
use cloud_native.Server.Dispatcher.Resources.{CriResources, transfer_to_cri_resources}

-- The fields of LinuxPodSandboxConfig that are read or written
pub record PodLinux : Type 0 where
  pub cgroup_parent : Text
  pub resources : Option CriResources

-- Those of RunPodSandboxRequest. A nil Config and nil maps read as empty; `linux` may be nil.
pub record RunPodSandboxRequest : Type 0 where
  pub name : Text
  pub namespace : Text
  pub uid : Text
  pub labels : List (Text × Text)
  pub annotations : List (Text × Text)
  pub linux : Option PodLinux

-- A nil map is `none`.
pub record PodSandboxHookResponse : Type 0 where
  pub annotations : Option (List (Text × Text))
  pub labels : Option (List (Text × Text))
  pub cgroup_parent : Text
  pub resources : Option LinuxContainerResources

-- `GetLinux().GetCgroupParent()`
unfoldable pub parent_of : Option PodLinux → Text
parent_of none = []
parent_of (some linux) = linux.cgroup_parent

-- ParsePodRequest. The resources of the request are not shown to the hook.
unfoldable pub parse_pod_request : RunPodSandboxRequest → PodSandboxHookRequest
unfolding parent_of
parse_pod_request req = record {
  pod_meta = some (record { name = req.name; uid = req.uid; namespace = req.namespace; id = [] });
  labels = req.labels;
  annotations = req.annotations;
  cgroup_parent = parent_of req.linux;
  resources = none;
}

-- `&runtimeapi.LinuxPodSandboxConfig{}` where there is none
linux_or_new : Option PodLinux → PodLinux
linux_or_new none = record { cgroup_parent = []; resources = none }
linux_or_new (some linux) = linux

-- The request to the runtime and the hook request, which a response rewrites together
abbrev pub PodRequests : Type 0
PodRequests = RunPodSandboxRequest × PodSandboxHookRequest

fill_pod_annotations : Option (List (Text × Text)) → PodRequests → PodRequests
fill_pod_annotations none r = r
fill_pod_annotations (some a) (proxy, hook) =
    (record proxy { annotations = a }, record hook { annotations = a })

fill_pod_labels : Option (List (Text × Text)) → PodRequests → PodRequests
fill_pod_labels none r = r
fill_pod_labels (some l) (proxy, hook) = (record proxy { labels = l }, record hook { labels = l })

fill_pod_parent : Text → PodRequests → PodRequests
unfolding linux_or_new
fill_pod_parent parent (proxy, hook) = if is_empty parent then (proxy, hook) else (
  record proxy { linux = some (record (linux_or_new proxy.linux) { cgroup_parent = parent }) },
  record hook { cgroup_parent = parent },
)

fill_pod_resources : Option LinuxContainerResources → PodRequests → PodRequests
unfolding linux_or_new transfer_to_cri_resources
fill_pod_resources none r = r
fill_pod_resources (some res) (proxy, hook) = (
  record proxy {
    linux =
        some
          (record (linux_or_new proxy.linux) { resources = transfer_to_cri_resources (some res) });
  },
  record hook { resources = some res },
)

unfoldable pub backfill_pod_request : PodSandboxHookResponse → PodRequests → PodRequests
unfolding fill_pod_annotations fill_pod_labels fill_pod_parent fill_pod_resources
backfill_pod_request resp r = fill_pod_resources resp.resources (
    fill_pod_parent resp.cgroup_parent
      (fill_pod_labels resp.labels (fill_pod_annotations resp.annotations r)))

-- The hook as the dispatcher calls it, on the state of the hook manager
abbrev pub PodHook : Type 0 → Type 0
PodHook S = PodSandboxHookRequest → S → S × Outcome (Option PodSandboxHookResponse)

-- An error, or a nil response, changes nothing.
backfill_pod : Outcome (Option PodSandboxHookResponse) → PodRequests → Outcome PodRequests
unfolding backfill_pod_request
backfill_pod panic r = panic
backfill_pod (err e) r = ok r
backfill_pod (ok none) r = ok r
backfill_pod (ok (some resp)) r = ok (backfill_pod_request resp r)

-- InsertIntoCacheIfNeed, where an error is logged
noted_pod : {R : Type 0} → PodSandboxHookRequest → Cache → R × Option Text → R × Outcome Cache
unfolding insert_pod
noted_pod req c (r, none) = (r, err runtime_error)
noted_pod req c (r, some id) = (r, logged c (insert_pod id (pod_hook_request req) none c))

module _ {S R : Type 0} (hook : PodHook S) (run : RunPodSandboxRequest → R → R × Option Text) where
  shown_pod : RunPodSandboxRequest → S → S × Outcome PodRequests
  unfolding parse_pod_request backfill_pod skip_tap_handle
  shown_pod req s =
      if skip_tap_handle req.labels
      then (s, ok (req, parse_pod_request req))
      else let (t, answer) = hook (parse_pod_request req) s in
        (t, backfill_pod answer (req, parse_pod_request req))

  forward_pod : S × Outcome PodRequests → Cache → R → S × R × Outcome Cache
  unfolding noted_pod
  forward_pod (s, panic) c r = (s, r, panic)
  forward_pod (s, err e) c r = (s, r, err e)
  forward_pod (s, ok (proxy, req)) c r =
      let (q, answer) = noted_pod req c (run proxy r) in (s, q, answer)

  -- On an error of the runtime the cache stays as it is.
  unfoldable pub intercept_run_pod : RunPodSandboxRequest → S × R × Cache → S × R × Outcome Cache
  unfolding forward_pod shown_pod
  intercept_run_pod req (s, r, c) = forward_pod (shown_pod req s) c r

-- StopPodSandbox: ParsePodRequest does not know the request, so no hook runs. The pod is deleted
-- whatever the runtime answers.
unfoldable pub intercept_stop_pod :
    {R : Type 0} → (Text → R → R × Bool) → Text → R × Cache → R × Cache × Bool
unfolding delete_pod
intercept_stop_pod stop id (r, c) = let (q, stopped) = stop id r in (q, delete_pod id c, stopped)

-- PreRunPodSandboxHook of the policy manager: the response is the request.
unfoldable pub pre_run_pod_sandbox_hook : {S : Type 0} → PodHook S
pre_run_pod_sandbox_hook req s = (
  s,
  ok (
      some (record {
        annotations = some req.annotations;
        labels = some req.labels;
        cgroup_parent = req.cgroup_parent;
        resources = req.resources;
      })),
)

-- ===== src/Cache/Pods.antt =====
-- pod.go: a cached pod, and how it is read from a message.
pub mod Read
use cloud_native.Prelude.{
  Bool, true, false, ◌||◌, Option, none, some, List, [], ◌∷◌, ◌==◌, if◌then◌else◌,
}
use cloud_native.TopologyAware.Outcome.{Outcome, panic, err, ok, unknown_message, empty_id}
use cloud_native.TopologyAware.Request.Devices.{Text, codes, is_empty, split}
use cloud_native.TopologyAware.Filter.{text_eq}
use cloud_native.TopologyAware.Hooks.{QosClass}
use cloud_native.TopologyAware.Hooks.QosClass.{best_effort, burstable, guaranteed, unset}
use cloud_native.Cache.Resources.{LinuxContainerResources, trim_slash}
use cloud_native.Cache.Messages.{
  PodSandboxMetadata, PodSandboxHookRequest, NriResources, NriLinuxSandbox, NriSandbox,
}
use cloud_native.Cache.Convert.{convert_pod_linux_resources}

pub data PodState : Type 0 where
  ready not_ready stale_pod : PodState

-- `containers` maps names to ids; `none` is the nil map. (`Resources` is empty in every pod and left
-- out.)
pub record Pod : Type 0 where
  pub id : Text
  pub uid : Text
  pub name : Text
  pub namespace : Text
  pub annotations : List (Text × Text)
  pub labels : List (Text × Text)
  pub state : PodState
  pub qos_class : QosClass
  pub linux_req : Option LinuxContainerResources
  pub cgroup_parent : Text
  pub containers : Option (List (Text × Text))

-- `&pod{cache: cch, ID: id}`
abbrev pub new_pod : Text → Pod
new_pod id = record {
  id = id;
  uid = [];
  name = [];
  namespace = [];
  annotations = [];
  labels = [];
  state = ready;
  qos_class = unset;
  linux_req = none;
  cgroup_parent = [];
  containers = none;
}

-- `strings.HasPrefix(s, prefix)`
unfoldable pub has_prefix : Text → Text → Bool
has_prefix s [] = true
has_prefix [] (c ∷ prefix) = false
has_prefix (d ∷ s) (c ∷ prefix) = let rest = has_prefix s prefix in if d == c then rest else false

is_kubepods : Text → Bool
is_kubepods dir = text_eq dir (codes "kubepods.slice") || text_eq dir (codes "kubepods")

-- The class that the directory below kubepods names, if it names one
class_of : Text → Option QosClass
unfolding has_prefix
class_of dir =
    if text_eq dir (codes "kubepods-besteffort.slice") || text_eq dir (codes "besteffort")
    then some best_effort
    else if text_eq dir (codes "kubepods-burstable.slice") || text_eq dir (codes "burstable")
    then some burstable
    else if has_prefix dir (codes "kubepods-pod") || has_prefix dir (codes "pod")
    then some guaranteed
    else none

-- `dirs[0]` after the second `len(dirs) < 1`
class_below : List Text → Option QosClass
unfolding class_of
class_below [] = none
class_below (dir ∷ dirs) = class_of dir

skip_kubepods : List Text → Option QosClass
unfolding is_kubepods class_below class_of
skip_kubepods [] = none
skip_kubepods (dir ∷ dirs) = if is_kubepods dir then class_below dirs else class_of dir

skip_root : List Text → Option QosClass
unfolding is_kubepods skip_kubepods
skip_root [] = none
skip_root (dir ∷ dirs) = if is_kubepods dir then skip_kubepods (dir ∷ dirs) else skip_kubepods dirs

with_class : Option QosClass → Pod → Pod
with_class none p = p
with_class (some qos) p = record p { qos_class = qos }

-- The pod that the method leaves. It sets no class where it returns an error, except for the empty
-- path.
unfoldable pub discover_qos_class : Pod → Pod
unfolding with_class skip_root
discover_qos_class p =
    if is_empty p.cgroup_parent
    then record p { qos_class = best_effort }
    else with_class (skip_root (split 47 (trim_slash p.cgroup_parent))) p

with_meta : Option PodSandboxMetadata → Pod → Outcome Pod
with_meta none p = panic
with_meta (some meta) p =
    ok (record p { uid = meta.uid; name = meta.name; namespace = meta.namespace })

finish_docker : PodSandboxHookRequest → Outcome Pod → Outcome Pod
unfolding discover_qos_class
finish_docker info panic = panic
finish_docker info (err e) = err e
finish_docker info (ok p) = ok (
    discover_qos_class (record p {
      labels = info.labels;
      annotations = info.annotations;
      state = ready;
      cgroup_parent = info.cgroup_parent;
      linux_req = info.resources;
    }))

-- fromDockerRunRequest of `pod`. A nil PodMeta ends the program.
unfoldable pub pod_from_docker : PodSandboxHookRequest → Pod → Outcome Pod
unfolding finish_docker with_meta
pod_from_docker info p =
    finish_docker info (with_meta info.pod_meta (record p { containers = some [] }))

resources_or : Option NriResources → Option NriResources → Option LinuxContainerResources
unfolding convert_pod_linux_resources
resources_or none legacy = convert_pod_linux_resources legacy
resources_or (some nri) legacy = convert_pod_linux_resources (some nri)

with_linux : Option NriLinuxSandbox → Pod → Pod
unfolding resources_or
with_linux none p = p
with_linux (some linux) p = record p {
  cgroup_parent = linux.cgroup_parent;
  linux_req = resources_or linux.pod_resources linux.resources;
}

-- `status` is its CgroupParent.
with_status : Option Text → Pod → Pod
with_status none p = p
with_status (some parent) p = if is_empty parent then p else record p { cgroup_parent = parent }

unfoldable pub from_nri_pod_sandbox : NriSandbox → Option Text → Pod → Pod
unfolding discover_qos_class with_status with_linux
from_nri_pod_sandbox pod status p = discover_qos_class (
    with_status status (
      with_linux pod.linux (record p {
        containers = some [];
        uid = pod.uid;
        name = pod.name;
        namespace = pod.namespace;
        labels = pod.labels;
        annotations = pod.annotations;
        state = ready;
      })))

-- The kinds of message. The two of the CRI set nothing, not even the map of containers.
pub data PodMessage : Type 0 where
  run_request : PodMessage
  pod_listed : PodMessage
  pod_hook_request : PodSandboxHookRequest → PodMessage
  nri_sandbox : NriSandbox → PodMessage
  other_pod_message : PodMessage

-- The `switch` of InsertPod. The hook request's name is read for a log first.
unfoldable pub read_pod : PodMessage → Option Text → Pod → Outcome Pod
unfolding pod_from_docker from_nri_pod_sandbox
read_pod run_request status p = ok p
read_pod pod_listed status p = ok p
read_pod (pod_hook_request info) status p = pod_from_docker info p
read_pod (nri_sandbox pod) status p = ok (from_nri_pod_sandbox pod status p)
read_pod other_pod_message status p = err unknown_message

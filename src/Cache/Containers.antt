-- ===== src/Cache/Containers.antt =====
-- container.go: a cached container, and how it is read from a message.
pub mod Read
use cloud_native.Prelude.{
  ℕ, ◌^◌, ◌-◌, Bool, true, false, ◌||◌, ◌&&◌, Option, none, some, List, [], ◌∷◌, if◌then◌else◌,
}
use cloud_native.TopologyAware.Outcome.{Outcome, panic, err, ok, no_pod, ◌>>=◌}
use cloud_native.TopologyAware.Request.Devices.{Text}
use cloud_native.TopologyAware.Filter.{text_eq}
use cloud_native.TopologyAware.Rebuild.{ContainerState}
use cloud_native.TopologyAware.Rebuild.ContainerState.{created, running, exited, creating}
use cloud_native.Cache.Table.{find, put}
use cloud_native.Cache.Resources.{LinuxContainerResources}
use cloud_native.Cache.Messages.{
  NriState, nri_unknown, nri_created, nri_paused, nri_running, nri_stopped, NriResources,
  NriContainer, PodSandboxMetadata, ContainerMetadata, ContainerResourceHookRequest,
}
use cloud_native.Cache.Convert.{convert_nri_linux_resources}
use cloud_native.Cache.Pods.{Pod}

-- `pending` are the controllers with pending changes. (`Resources` is empty in every container, and
-- the pretty name is for logs: both are left out.)
pub record Container : Type 0 where
  pub id : Text
  pub pod_id : Text
  pub cache_id : Text
  pub name : Text
  pub namespace : Text
  pub state : ContainerState
  pub linux_req : Option LinuxContainerResources
  pub pending : List Text

-- `&container{cache: cch}`; the state 0 is CREATED.
abbrev pub new_container : Container
new_container = record {
  id = [];
  pod_id = [];
  cache_id = [];
  name = [];
  namespace = [];
  state = created;
  linux_req = none;
  pending = [];
}

-- `if _, ok := m[name]; !ok { m[name] = id }`
keep_name : Option Text → Text → Text → List (Text × Text) → List (Text × Text)
keep_name (some known) name id m = m
keep_name none name id m = put m name id

-- The same on the pod's map, where a write to the nil map ends the program.
name_container : Text → Text → Pod → Outcome Pod
unfolding keep_name
name_container name id pod = elim pod.containers [
  | none ↦ panic
  | some m ↦ ok (record pod { containers = some (keep_name (find m name) name id m) })
]

-- What reading a message leaves: the pods, with the name noted, and the container.
abbrev pub Reading : Type 0
Reading = List (Text × Pod) × Container

found_pod : Option Pod → Outcome Pod
found_pod none = err no_pod
found_pod (some pod) = ok pod

-- The end of both conversions: the name is noted in the pod, and the container is as given.
note_in_pod : List (Text × Pod) → Pod → Container → Outcome Reading
unfolding name_container
note_in_pod pods pod c = name_container c.name c.id pod >>= λ named. ok (put pods c.pod_id named, c)

unfoldable pub meta_id : Option PodSandboxMetadata → Text
meta_id none = []
meta_id (some meta) = meta.id

docker_container :
    List (Text × Pod)
    → ContainerResourceHookRequest
    → ContainerMetadata
    → Text
    → Pod
    → Outcome Reading
unfolding note_in_pod
docker_container pods req meta pod_id pod = note_in_pod pods pod (record new_container {
  pod_id = pod_id;
  id = meta.id;
  name = meta.name;
  namespace = pod.namespace;
  state = creating;
  linux_req = req.container_resources;
})

docker_with_meta :
    List (Text × Pod) → ContainerResourceHookRequest → Option ContainerMetadata → Outcome Reading
unfolding docker_container found_pod meta_id
docker_with_meta pods req none = panic
docker_with_meta pods req (some meta) =
    let pod_id = meta_id req.pod_meta in
    found_pod (find pods pod_id) >>= docker_container pods req meta pod_id

-- fromDockerRunRequest of `container`. A nil ContainerMeta ends the program, at a log in
-- InsertContainer.
unfoldable pub container_from_docker :
    ContainerResourceHookRequest → List (Text × Pod) → Outcome Reading
unfolding docker_with_meta
container_from_docker req pods = docker_with_meta pods req req.container_meta

unfoldable pub convert_nri_container_state : NriState → ContainerState
convert_nri_container_state nri_created = created
convert_nri_container_state nri_paused = created
convert_nri_container_state nri_running = running
convert_nri_container_state nri_stopped = exited
convert_nri_container_state nri_unknown = creating

nri_cached : NriContainer → Pod → Container
unfolding convert_nri_container_state convert_nri_linux_resources
nri_cached nri pod = record new_container {
  pod_id = nri.pod_sandbox_id;
  id = nri.id;
  name = nri.name;
  namespace = pod.namespace;
  state = convert_nri_container_state nri.state;
  linux_req = convert_nri_linux_resources nri.linux;
}

unfoldable pub from_nri_container : NriContainer → List (Text × Pod) → Outcome Reading
unfolding found_pod note_in_pod nri_cached
from_nri_container nri pods =
    found_pod (find pods nri.pod_sandbox_id) >>= λ pod. note_in_pod pods pod (nri_cached nri pod)

unfoldable pub from_basic_info : Text → Container
from_basic_info container_id = record new_container {
  id = container_id;
  name = container_id;
  state = creating;
  cache_id = container_id;
}

-- The kinds of message. The two of the CRI set nothing.
pub data ContainerMessage : Type 0 where
  create_request : ContainerMessage
  container_listed : ContainerMessage
  container_hook_request : ContainerResourceHookRequest → ContainerMessage
  nri_container : NriContainer → ContainerMessage
  other_message : ContainerMessage

-- The `switch` of InsertContainer
unfoldable pub read_container : Text → ContainerMessage → List (Text × Pod) → Outcome Reading
unfolding container_from_docker from_nri_container from_basic_info
read_container id create_request pods = ok (pods, new_container)
read_container id container_listed pods = ok (pods, new_container)
read_container id (container_hook_request req) pods = container_from_docker req pods
read_container id (nri_container nri) pods = from_nri_container nri pods
read_container id other_message pods = ok (pods, from_basic_info id)

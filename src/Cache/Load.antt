-- ===== src/Cache/Load.antt =====
-- LoadStoreDocker of utils.go: the cache is filled from what the Docker daemon runs.
pub mod Docker
use cloud_native.Prelude.{
  ℕ, Bool, true, false, Option, none, some, List, [], ◌∷◌, ◌++◌, if◌then◌else◌,
}
use cloud_native.TopologyAware.Outcome.{Outcome, panic, err, ok, ◌>>=◌, runtime_error}
use cloud_native.TopologyAware.Request.Devices.{Text, codes}
use cloud_native.Cache.Messages.{
  PodSandboxMetadata, PodSandboxHookRequest, ContainerMetadata, ContainerResourceHookRequest,
}
use cloud_native.Cache.Resources.{LinuxContainerResources}
use cloud_native.Cache.Pods.{Pod, pod_hook_request}
use cloud_native.Cache.Containers.{container_hook_request}
use cloud_native.Cache.Store.{Cache, insert_pod, insert_container, lookup_pod}
use cloud_native.Server.DockerUtils.{
  HostConfig, RuntimeResourceType, pod_resource, container_resource, get_runtime_resource_type,
  value_at, split_labels_and_annotations, host_config_to_resource, split_docker_env,
  to_cri_cgroup_path,
}

-- What ContainerList tells of a container
pub record DockerContainer : Type 0 where
  pub id : Text
  pub labels : List (Text × Text)

-- What ContainerInspect tells; `env` is that of `Config`, which may be nil.
pub record ContainerJson : Type 0 where
  pub name : Text
  pub host_config : Option HostConfig
  pub env : Option (List Text)

-- The daemon: the running containers, and what it knows of one. `none` is an error.
pub record DockerClient : Type 0 where
  pub container_list : Option (List DockerContainer)
  pub inspect : Text → Option ContainerJson

abbrev pub DockerWrapper : Type 0
DockerWrapper = DockerContainer × ContainerJson

-- The sandboxes and the containers
abbrev pub Sorted : Type 0
Sorted = List DockerWrapper × List DockerWrapper

add_wrapper : RuntimeResourceType → DockerWrapper → Sorted → Sorted
add_wrapper container_resource w (sandboxes, containers) = (sandboxes, w ∷ containers)
add_wrapper pod_resource w (sandboxes, containers) = (w ∷ sandboxes, containers)

add_inspected : DockerContainer → Option ContainerJson → Sorted → Sorted
unfolding add_wrapper get_runtime_resource_type
add_inspected c none sorted = sorted
add_inspected c (some json) sorted =
    add_wrapper (get_runtime_resource_type c.labels) (c, json) sorted

-- The loop that inspects: a container whose inspection fails is left out.
unfoldable pub inspect_all : DockerClient → List DockerContainer → Sorted
unfolding add_inspected
inspect_all client [] = ([], [])
inspect_all client (c ∷ cs) = add_inspected c (client.inspect c.id) (inspect_all client cs)

module _ (join : Text → Text → Text) (cgroup_driver : Text) where
  sandbox_request : DockerWrapper → HostConfig → PodSandboxHookRequest
  unfolding split_labels_and_annotations to_cri_cgroup_path host_config_to_resource
  sandbox_request (s, json) config =
      let (labels, annos) = split_labels_and_annotations s.labels in
      record {
        pod_meta = some (record { name = json.name; uid = s.id; namespace = []; id = [] });
        labels = labels;
        annotations = annos;
        cgroup_parent = to_cri_cgroup_path join cgroup_driver config.cgroup_parent;
        resources = host_config_to_resource (some config);
      }

  -- A nil HostConfig ends the program.
  load_sandbox : DockerWrapper → Option HostConfig → Cache → Outcome Cache
  unfolding sandbox_request insert_pod
  load_sandbox w none c = panic
  load_sandbox w (some config) c =
      insert_pod w.0.id (pod_hook_request (sandbox_request w config)) none c

  unfoldable pub load_sandboxes : List DockerWrapper → Cache → Outcome Cache
  unfolding load_sandbox
  load_sandboxes [] c = ok c
  load_sandboxes (w ∷ ws) c = load_sandbox w w.1.host_config c >>= load_sandboxes ws

envs_of : Option (List Text) → List (Text × Text)
unfolding split_docker_env
envs_of none = []
envs_of (some env) = split_docker_env env

-- The metadata carry no id.
meta_of : Option Pod → Option PodSandboxMetadata
meta_of none = none
meta_of (some pod) =
    some (record { name = pod.name; uid = pod.uid; namespace = pod.namespace; id = [] })

resources_of : Option Pod → Option LinuxContainerResources
resources_of none = none
resources_of (some pod) = pod.linux_req

container_request : DockerWrapper → Option Pod → ContainerResourceHookRequest
unfolding split_labels_and_annotations host_config_to_resource envs_of meta_of resources_of
container_request (c, json) pod = record {
  pod_meta = meta_of pod;
  container_meta = some (record { name = json.name; id = c.id });
  container_annotations = (split_labels_and_annotations c.labels).1;
  container_resources = host_config_to_resource json.host_config;
  pod_resources = resources_of pod;
  pod_annotations = [];
  pod_labels = [];
  pod_cgroup_parent = [];
  container_envs = envs_of json.env;
}

unfoldable pub load_containers : List DockerWrapper → Cache → Outcome Cache
unfolding container_request insert_container lookup_pod value_at
load_containers [] c = ok c
load_containers (w ∷ ws) c =
    let pod = lookup_pod (value_at w.0.labels (codes "io.kubernetes.sandbox.id")) c in
    insert_container w.0.id (container_hook_request (container_request w pod)) c
    >>= load_containers ws

load_sorted : (Text → Text → Text) → Text → Sorted → Cache → Outcome Cache
unfolding load_sandboxes load_containers
load_sorted join cgroup_driver (sandboxes, containers) c =
    load_sandboxes join cgroup_driver sandboxes c >>= load_containers containers

load_listed :
    (Text → Text → Text)
    → DockerClient
    → Text
    → Option (List DockerContainer)
    → Cache
    → Outcome Cache
unfolding load_sorted inspect_all
load_listed join client cgroup_driver none c = err runtime_error
load_listed join client cgroup_driver (some cs) c =
    load_sorted join cgroup_driver (inspect_all client cs) c

-- `join` is `path.Join`.
unfoldable pub load_store_docker :
    (Text → Text → Text) → DockerClient → Text → Cache → Outcome Cache
unfolding load_listed
load_store_docker join client cgroup_driver c =
    load_listed join client cgroup_driver client.container_list c

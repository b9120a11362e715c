-- ===== src/Cache/Containerd.antt =====
-- LoadStoreContainerd of utils.go: the cache is filled from the sandboxes and the running containers
-- that containerd lists.
pub mod Restored
use cloud_native.Prelude.{ℕ, Option, none, some, List, [], ◌∷◌, if◌then◌else◌}
use cloud_native.TopologyAware.Outcome.{Outcome, panic, err, ok, ◌>>=◌, runtime_error}
use cloud_native.TopologyAware.Request.Devices.{Text, codes}
use cloud_native.TopologyAware.Rebuild.{ContainerState}
use cloud_native.Cache.Table.{put}
use cloud_native.Cache.Messages.{
  PodSandboxMetadata, PodSandboxHookRequest, ContainerResourceHookRequest,
}
use cloud_native.Cache.Resources.{LinuxContainerResources, no_resources}
use cloud_native.Cache.Pods.{Pod, pod_hook_request}
use cloud_native.Cache.Containers.{container_hook_request}
use cloud_native.Cache.Store.{
  Cache, insert_pod, insert_container, set_container_state, lookup_pod, logged,
}
use cloud_native.Server.DockerUtils.{value_at}

-- The fields of the OCI runtime specification that are read; nil pointers are `none`.
pub record LinuxCpu : Type 0 where
  pub period : Option ℕ
  pub shares : Option ℕ
  pub quota : Option ℕ
  pub cpus : Text
  pub mems : Text

pub record LinuxMemory : Type 0 where
  pub limit : Option ℕ
  pub swap : Option ℕ

pub record SpecResources : Type 0 where
  pub cpu : Option LinuxCpu
  pub memory : Option LinuxMemory

-- `resources` is `Linux.Resources`, and absent where Linux is nil; `oom_score_adj` is that of
-- `Process`.
pub record Spec : Type 0 where
  pub resources : Option SpecResources
  pub oom_score_adj : Option ℕ
  pub annotations : List (Text × Text)

abbrev or_old : Option ℕ → ℕ → ℕ
or_old none old = old
or_old (some value) old = value

unfoldable pub process_cpu_resources :
    Option LinuxCpu → LinuxContainerResources → LinuxContainerResources
process_cpu_resources none r = r
process_cpu_resources (some cpu) r = record r {
  cpu_period = or_old cpu.period r.cpu_period;
  cpu_shares = or_old cpu.shares r.cpu_shares;
  cpu_quota = or_old cpu.quota r.cpu_quota;
  cpuset_cpus = cpu.cpus;
  cpuset_mems = cpu.mems;
}

unfoldable pub process_memory_resources :
    Option LinuxMemory → LinuxContainerResources → LinuxContainerResources
process_memory_resources none r = r
process_memory_resources (some memory) r = record r {
  memory_limit_in_bytes = or_old memory.limit r.memory_limit_in_bytes;
  memory_swap_limit_in_bytes = or_old memory.swap r.memory_swap_limit_in_bytes;
}

with_score : Option ℕ → LinuxContainerResources → LinuxContainerResources
with_score none r = r
with_score (some score) r = record r { oom_score_adj = score }

spec_resources : Option SpecResources → Option ℕ → Option LinuxContainerResources
unfolding with_score process_cpu_resources process_memory_resources
spec_resources none score = none
spec_resources (some res) score = some (
    with_score score
      (process_memory_resources res.memory (process_cpu_resources res.cpu no_resources)))

unfoldable pub runtime_spec_to_resource : Option Spec → Option LinuxContainerResources
unfolding spec_resources
runtime_spec_to_resource none = none
runtime_spec_to_resource (some spec) = spec_resources spec.resources spec.oom_score_adj

-- What containerd lists of a sandbox
pub record PodSandbox : Type 0 where
  pub id : Text
  pub metadata : PodSandboxMetadata
  pub labels : List (Text × Text)
  pub annotations : List (Text × Text)

-- The `info` of a sandbox's status; `cgroup_parent` is that of `Config.Linux`, where there is one.
pub record SandboxInfo : Type 0 where
  pub cgroup_parent : Option Text
  pub runtime_spec : Option Spec

-- What containerd lists of a container
pub record ListedContainer : Type 0 where
  pub id : Text
  pub name : Text
  pub pod_sandbox_id : Text
  pub annotations : List (Text × Text)
  pub state : ContainerState

-- The `info` of a container's status; `envs` are those of `Config`, and an entry may be nil.
pub record ContainerInfo : Type 0 where
  pub envs : Option (List (Option (Text × Text)))
  pub runtime_spec : Option Spec

-- The runtime service. A status that fails, or whose info does not decode, is `none`.
pub record RuntimeClient : Type 0 where
  pub list_pod_sandbox : Option (List PodSandbox)
  pub pod_sandbox_status : Text → Option SandboxInfo
  pub list_containers : Option (List ListedContainer)
  pub container_status : Text → Option ContainerInfo

spec_parent : Option Spec → Text
unfolding value_at
spec_parent none = []
spec_parent (some spec) = value_at spec.annotations (codes "io.kubernetes.cri-o.CgroupParent")

sandbox_parent : Option Text → Option Spec → Text
unfolding spec_parent
sandbox_parent (some parent) spec = parent
sandbox_parent none spec = spec_parent spec

-- The metadata have no id.
sandbox_hook_request : PodSandbox → SandboxInfo → PodSandboxHookRequest
unfolding sandbox_parent runtime_spec_to_resource
sandbox_hook_request pod info = record {
  pod_meta = some (record pod.metadata { id = [] });
  labels = pod.labels;
  annotations = pod.annotations;
  cgroup_parent = sandbox_parent info.cgroup_parent info.runtime_spec;
  resources = runtime_spec_to_resource info.runtime_spec;
}

process_pod_sandbox : PodSandbox → Option SandboxInfo → Cache → Outcome Cache
unfolding sandbox_hook_request insert_pod
process_pod_sandbox pod none c = err runtime_error
process_pod_sandbox pod (some info) c =
    insert_pod pod.id (pod_hook_request (sandbox_hook_request pod info)) none c

put_containerd_envs : List (Option (Text × Text)) → List (Text × Text) → List (Text × Text)
unfolding put
put_containerd_envs [] env = env
put_containerd_envs (none ∷ envs) env = put_containerd_envs envs env
put_containerd_envs (some (key, value) ∷ envs) env = put_containerd_envs envs (put env key value)

containerd_env_convert : Option (List (Option (Text × Text))) → List (Text × Text)
unfolding put_containerd_envs
containerd_env_convert none = []
containerd_env_convert (some envs) = put_containerd_envs envs []

checkpoint_meta : Text → Option Pod → Option PodSandboxMetadata
checkpoint_meta id none = none
checkpoint_meta id (some pod) =
    some (record { name = pod.name; uid = pod.uid; namespace = pod.namespace; id = id })

checkpoint_resources : Option Pod → Option LinuxContainerResources
checkpoint_resources none = none
checkpoint_resources (some pod) = pod.linux_req

listed_request : ListedContainer → ContainerInfo → Option Pod → ContainerResourceHookRequest
unfolding checkpoint_meta checkpoint_resources containerd_env_convert runtime_spec_to_resource
listed_request container info pod = record {
  pod_meta = checkpoint_meta container.pod_sandbox_id pod;
  container_meta = some (record { name = container.name; id = container.id });
  container_annotations = container.annotations;
  container_resources = runtime_spec_to_resource info.runtime_spec;
  pod_resources = checkpoint_resources pod;
  pod_annotations = [];
  pod_labels = [];
  pod_cgroup_parent = [];
  container_envs = containerd_env_convert info.envs;
}

-- The insertion gives the state of a container that is being created, so it is set after it.
unfoldable pub process_container : ListedContainer → Option ContainerInfo → Cache → Outcome Cache
unfolding listed_request insert_container set_container_state lookup_pod
process_container container none c = err runtime_error
process_container container (some info) c =
    insert_container container.id
      (container_hook_request
        (listed_request container info (lookup_pod container.pod_sandbox_id c)))
      c
    >>= λ d. ok (set_container_state container.id container.state d)

-- The loops go on after an error, which leaves the cache as it was.
unfoldable pub process_sandboxes : RuntimeClient → List PodSandbox → Cache → Outcome Cache
unfolding process_pod_sandbox
process_sandboxes client [] c = ok c
process_sandboxes client (pod ∷ pods) c =
    logged c (process_pod_sandbox pod (client.pod_sandbox_status pod.id) c)
    >>= process_sandboxes client pods

unfoldable pub process_containers : RuntimeClient → List ListedContainer → Cache → Outcome Cache
unfolding process_container
process_containers client [] c = ok c
process_containers client (container ∷ containers) c =
    logged c (process_container container (client.container_status container.id) c)
    >>= process_containers client containers

or_list_error : {A : Type 0} → Option A → Outcome A
or_list_error none = err runtime_error
or_list_error (some listed) = ok listed

unfoldable pub load_store_containerd : RuntimeClient → Cache → Outcome Cache
unfolding or_list_error process_sandboxes process_containers
load_store_containerd client c = or_list_error client.list_pod_sandbox >>= λ pods.
    process_sandboxes client pods c >>= λ d.
    or_list_error client.list_containers >>= λ containers. process_containers client containers d

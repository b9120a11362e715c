-- ===== src/Server/Nri/Convert.antt =====
-- convertToHookRequest of server/nri/server.go and the conversions that it calls.
use cloud_native.Prelude.{ℕ, Option, none, some, List, [], ◌∷◌, if◌then◌else◌}
use cloud_native.TopologyAware.Request.Devices.{Text, is_empty}
use cloud_native.Cache.Table.{put}
use cloud_native.Cache.Resources.{LinuxContainerResources, no_resources}
use cloud_native.Cache.Messages.{
  NriCpu, NriResources, NriContainer, NriLinuxSandbox, NriSandbox, PodSandboxMetadata,
  ContainerMetadata, ContainerResourceHookRequest,
}
use cloud_native.Cache.Convert.{non_empty}
use cloud_native.Server.DockerUtils.{cut}

unfoldable pub convert_pod_metadata : NriSandbox → PodSandboxMetadata
convert_pod_metadata pod = record {
  name = pod.name;
  namespace = pod.namespace;
  uid = pod.uid;
  id = pod.id;
}

unfoldable pub convert_container_metadata : NriContainer → ContainerMetadata
convert_container_metadata container = record { name = container.name; id = container.id }

-- `if x := get(); x != nil { field = x.Value }`
abbrev given : Option ℕ → ℕ → ℕ
given none field = field
given (some value) field = value

unfoldable pub extract_cpu_resources : NriCpu → LinuxContainerResources → LinuxContainerResources
extract_cpu_resources cpu r = record r {
  cpu_period = given cpu.period r.cpu_period;
  cpu_quota = given cpu.quota r.cpu_quota;
  cpu_shares = given cpu.shares r.cpu_shares;
  cpuset_cpus = non_empty cpu.cpus r.cpuset_cpus;
  cpuset_mems = non_empty cpu.mems r.cpuset_mems;
}

unfoldable pub extract_memory_resources :
    Option ℕ → LinuxContainerResources → LinuxContainerResources
extract_memory_resources limit r = record r {
  memory_limit_in_bytes = given limit r.memory_limit_in_bytes;
}

with_cpu : Option NriCpu → LinuxContainerResources → LinuxContainerResources
unfolding extract_cpu_resources
with_cpu none r = r
with_cpu (some cpu) r = extract_cpu_resources cpu r

with_memory : Option (Option ℕ) → LinuxContainerResources → LinuxContainerResources
unfolding extract_memory_resources
with_memory none r = r
with_memory (some limit) r = extract_memory_resources limit r

converted : Option NriResources → Option LinuxContainerResources
unfolding with_cpu with_memory
converted none = none
converted (some nri) =
    some (record (with_memory nri.memory (with_cpu nri.cpu no_resources)) { oom_score_adj = 0 })

unfoldable pub convert_container_resources : NriContainer → Option LinuxContainerResources
unfolding converted
convert_container_resources container = converted container.linux

-- `strings.Index(env, "=") > 0` holds where there is a "=" and a key before it.
add_variable : Text → Option (Text × Text) → List (Text × Text) → List (Text × Text)
unfolding put
add_variable env none envs = put envs env []
add_variable env (some (key, value)) envs =
    if is_empty key then put envs env [] else put envs key value

unfoldable pub add_variables : List Text → List (Text × Text) → List (Text × Text)
unfolding add_variable cut
add_variables [] envs = envs
add_variables (env ∷ vars) envs =
    add_variables vars (if is_empty env then envs else add_variable env (cut 61 env) envs)

unfoldable pub convert_environment_variables : List Text → List (Text × Text)
unfolding add_variables
convert_environment_variables vars = add_variables vars []

cgroup_parent_of : Option NriLinuxSandbox → Text
cgroup_parent_of none = []
cgroup_parent_of (some linux) = linux.cgroup_parent

unfoldable pub extract_cgroup_parent : NriSandbox → Text
unfolding cgroup_parent_of
extract_cgroup_parent pod = cgroup_parent_of pod.linux

legacy_resources : Option NriLinuxSandbox → Option NriResources
legacy_resources none = none
legacy_resources (some linux) = linux.resources

-- The pod's CPU sets are taken over as they are; on the fresh message that is the same.
unfoldable pub convert_pod_resources : NriSandbox → Option LinuxContainerResources
unfolding converted legacy_resources
convert_pod_resources pod = converted (legacy_resources pod.linux)

unfoldable pub convert_to_hook_request : NriSandbox → NriContainer → ContainerResourceHookRequest
unfolding convert_pod_metadata convert_container_metadata convert_container_resources
    convert_environment_variables extract_cgroup_parent convert_pod_resources
convert_to_hook_request pod container = record {
  pod_meta = some (convert_pod_metadata pod);
  container_meta = some (convert_container_metadata container);
  container_annotations = container.annotations;
  container_resources = convert_container_resources container;
  pod_resources = convert_pod_resources pod;
  pod_annotations = pod.annotations;
  pod_labels = pod.labels;
  pod_cgroup_parent = extract_cgroup_parent pod;
  container_envs = convert_environment_variables container.env;
}

-- ===== src/PolicyManager/Context.antt =====
-- policy/container_context.go: the context that a policy's hook is given, from the hook request.
use cloud_native.Prelude.{Option, none, some, List, [], ◌∷◌, ◌++◌, if◌then◌else◌}
use cloud_native.TopologyAware.Request.Devices.{Text, codes}
use cloud_native.TopologyAware.Filter.{text_eq}
use cloud_native.Cache.Table.{find}
use cloud_native.Cache.Resources.{LinuxContainerResources, Requirements, estimate_requirements}
use cloud_native.Cache.Messages.{
  PodSandboxMetadata, ContainerMetadata, ContainerResourceHookRequest,
}
use cloud_native.Cache.Pods.{has_prefix}
use cloud_native.Server.DockerUtils.{trim_prefix}

pub record PodMeta : Type 0 where
  pub namespace : Text
  pub name : Text
  pub uid : Text

pub record ContainerMeta : Type 0 where
  pub name : Text
  pub id : Text

-- `linux` are the origin resources that FromProxy points to. (The extended resources and those that
-- only a policy sets are left out.)
pub record ContextResources : Type 0 where
  pub estimated_requirements : Option Requirements
  pub linux : Option LinuxContainerResources

-- `Request` of the context; the sandbox flag is never set.
pub record ContainerContext : Type 0 where
  pub pod_meta : PodMeta
  pub container_meta : ContainerMeta
  pub pod_labels : List (Text × Text)
  pub pod_annotations : List (Text × Text)
  pub cgroup_parent : Text
  pub container_envs : List (Text × Text)
  pub resources : ContextResources

pub data CgroupDriverType : Type 0 where
  systemd cgroupfs : CgroupDriverType

-- What the process reads of its surroundings: the driver that the formatter is for, and
-- `filepath.Join`.
pub record CgroupEnv : Type 0 where
  pub driver : CgroupDriverType
  pub default_runtime_type : Text
  pub join : Text → Text → Text

pod_meta_of : Option PodSandboxMetadata → PodMeta
pod_meta_of none = record { namespace = []; name = []; uid = [] }
pod_meta_of (some meta) = record { namespace = meta.namespace; name = meta.name; uid = meta.uid }

runtime_type : Option Text → Text → Text
runtime_type none default = default
runtime_type (some docker) default = codes "docker"

unfoldable pub get_container_id : CgroupEnv → List (Text × Text) → Text → Text
unfolding runtime_type
get_container_id env annotations uid =
    runtime_type (find annotations (codes "io.kubernetes.docker.type")) env.default_runtime_type
    ++ codes "://"
    ++ uid

name_of : Option ContainerMetadata → Text
name_of none = []
name_of (some meta) = meta.name

id_of : Option ContainerMetadata → Text
id_of none = []
id_of (some meta) = meta.id

container_meta_of : CgroupEnv → Option ContainerMetadata → List (Text × Text) → ContainerMeta
unfolding get_container_id name_of id_of
container_meta_of env meta annotations = record {
  name = name_of meta;
  id = get_container_id env annotations (id_of meta);
}

-- What stands before the first "://", and what follows it
unfoldable pub cut_scheme : Text → Text × Option Text
unfolding has_prefix trim_prefix
cut_scheme [] = ([], none)
cut_scheme (c ∷ s) =
    let (first, rest) = cut_scheme s in
    if has_prefix (c ∷ s) (codes "://")
    then ([], some (trim_prefix (c ∷ s) (codes "://")))
    else (c ∷ first, rest)

-- ContainerDirFn of the formatter for systemd: the directory, if the runtime is known
systemd_dir : Text → Text → Option Text
systemd_dir runtime hash =
    if text_eq runtime (codes "docker")
    then some (codes "docker-" ++ hash ++ codes ".scope")
    else if text_eq runtime (codes "containerd")
    then some (codes "cri-containerd-" ++ hash ++ codes ".scope")
    else if text_eq runtime (codes "pouch")
    then some (codes "pouch-" ++ hash ++ codes ".scope")
    else if text_eq runtime (codes "cri-o")
    then some (codes "crio-" ++ hash ++ codes ".scope")
    else none

-- The same for cgroupfs
cgroupfs_dir : Text → Text → Option Text
cgroupfs_dir runtime hash =
    if text_eq runtime (codes "docker")
    then some hash
    else if text_eq runtime (codes "containerd")
    then some hash
    else if text_eq runtime (codes "pouch")
    then some hash
    else if text_eq runtime (codes "cri-o")
    then some hash
    else none

dir_for : CgroupDriverType → Text → Text → Option Text
unfolding systemd_dir cgroupfs_dir
dir_for systemd runtime hash = systemd_dir runtime hash
dir_for cgroupfs runtime hash = cgroupfs_dir runtime hash

-- `hashID[1]` ends at the next "://".
hashed_dir : CgroupDriverType → Text → Option Text → Option Text
unfolding dir_for cut_scheme
hashed_dir driver runtime none = none
hashed_dir driver runtime (some hash) = dir_for driver runtime (cut_scheme hash).0

-- `none` is an error.
unfoldable pub container_dir : CgroupDriverType → Text → Option Text
unfolding hashed_dir cut_scheme
container_dir driver id = let (runtime, hash) = cut_scheme id in hashed_dir driver runtime hash

join_dir : CgroupEnv → Text → Option Text → Option Text
join_dir env parent none = none
join_dir env parent (some dir) = some (env.join parent dir)

unfoldable pub get_container_cgroup_parent_dir_by_id : CgroupEnv → Text → Text → Option Text
unfolding join_dir container_dir
get_container_cgroup_parent_dir_by_id env parent id =
    join_dir env parent (container_dir env.driver id)

-- The pod's cgroup is the fallback.
dir_or : Option Text → Text → Text
dir_or none parent = parent
dir_or (some dir) parent = dir

resources_from_proxy : Option LinuxContainerResources → Text → ContextResources
unfolding estimate_requirements
resources_from_proxy none parent = record { estimated_requirements = none; linux = none }
resources_from_proxy (some r) parent = record {
  estimated_requirements = some (estimate_requirements (some r) parent);
  linux = some r;
}

unfoldable pub from_proxy : CgroupEnv → ContainerResourceHookRequest → ContainerContext
unfolding pod_meta_of container_meta_of get_container_cgroup_parent_dir_by_id dir_or
    resources_from_proxy
from_proxy env req =
    let meta = container_meta_of env req.container_meta req.pod_annotations in
    record {
      pod_meta = pod_meta_of req.pod_meta;
      container_meta = meta;
      pod_labels = req.pod_labels;
      pod_annotations = req.pod_annotations;
      cgroup_parent =
          dir_or (get_container_cgroup_parent_dir_by_id env req.pod_cgroup_parent meta.id)
            req.pod_cgroup_parent;
      container_envs = req.container_envs;
      resources = resources_from_proxy req.container_resources req.pod_cgroup_parent;
    }

-- The context of the hooks that follow a stop has the container's bare id and nothing else.
unfoldable pub stop_context : Text → ContainerContext
stop_context id = record {
  pod_meta = record { namespace = []; name = []; uid = [] };
  container_meta = record { name = []; id = id };
  pod_labels = [];
  pod_annotations = [];
  cgroup_parent = [];
  container_envs = [];
  resources = record { estimated_requirements = none; linux = none };
}

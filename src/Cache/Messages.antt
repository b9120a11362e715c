-- ===== src/Cache/Messages.antt =====
-- The messages that the cache is fed: those of NRI (github.com/containerd/nri/pkg/api) and those of
-- the proxies, with the fields that the program reads. A pointer that can be nil is an option.
use cloud_native.Prelude.{ℕ, Option, List}
use cloud_native.TopologyAware.Request.Devices.{Text}
use cloud_native.Cache.Resources.{LinuxContainerResources}

pub record NriCpu : Type 0 where
  pub period : Option ℕ
  pub quota : Option ℕ
  pub shares : Option ℕ
  pub cpus : Text
  pub mems : Text

-- `memory` is the limit of the memory message.
pub record NriResources : Type 0 where
  pub cpu : Option NriCpu
  pub memory : Option (Option ℕ)

pub data NriState : Type 0 where
  nri_unknown nri_created nri_paused nri_running nri_stopped : NriState

-- `linux` is `Linux.Resources`, absent if one of the two is.
pub record NriContainer : Type 0 where
  pub id : Text
  pub pod_sandbox_id : Text
  pub name : Text
  pub state : NriState
  pub annotations : List (Text × Text)
  pub env : List Text
  pub linux : Option NriResources

pub record NriLinuxSandbox : Type 0 where
  pub cgroup_parent : Text
  pub pod_resources : Option NriResources
  pub resources : Option NriResources

pub record NriSandbox : Type 0 where
  pub id : Text
  pub uid : Text
  pub name : Text
  pub namespace : Text
  pub labels : List (Text × Text)
  pub annotations : List (Text × Text)
  pub linux : Option NriLinuxSandbox

pub record PodSandboxMetadata : Type 0 where
  pub name : Text
  pub uid : Text
  pub namespace : Text
  pub id : Text

pub record PodSandboxHookRequest : Type 0 where
  pub pod_meta : Option PodSandboxMetadata
  pub labels : List (Text × Text)
  pub annotations : List (Text × Text)
  pub cgroup_parent : Text
  pub resources : Option LinuxContainerResources

pub record ContainerMetadata : Type 0 where
  pub name : Text
  pub id : Text

pub record ContainerResourceHookRequest : Type 0 where
  pub pod_meta : Option PodSandboxMetadata
  pub container_meta : Option ContainerMetadata
  pub container_annotations : List (Text × Text)
  pub container_resources : Option LinuxContainerResources
  pub pod_resources : Option LinuxContainerResources
  pub pod_annotations : List (Text × Text)
  pub pod_labels : List (Text × Text)
  pub pod_cgroup_parent : Text
  pub container_envs : List (Text × Text)

-- ===== src/Server/HookManager.antt =====
-- policy.HookManager as the servers use it: its state, and the hooks that change it.
use cloud_native.Prelude.{Option, List}
use cloud_native.TopologyAware.Outcome.{Outcome}
use cloud_native.TopologyAware.Request.Devices.{Text}
use cloud_native.Cache.Resources.{LinuxContainerResources}
use cloud_native.Cache.Store.{Cache}
use cloud_native.Cache.Messages.{ContainerResourceHookRequest}

-- The fields that the servers read; a nil map is `none`.
pub record ContainerResourceHookResponse : Type 0 where
  pub container_annotations : Option (List (Text × Text))
  pub container_resources : Option LinuxContainerResources
  pub pod_cgroup_parent : Text
  pub container_envs : Option (List (Text × Text))

-- A hook reads the cache. It returns an error, or its response, which may be nil, and its state
-- changes in both cases.
pub record HookManager (S : Type 0) : Type 0 where
  pub pre_create_container_hook :
      ContainerResourceHookRequest → Cache → S → S × Outcome (Option ContainerResourceHookResponse)
  pub post_stop_container_hook :
      ContainerResourceHookRequest → Cache → S → S × Outcome (Option ContainerResourceHookResponse)
  pub pre_remove_container_hook :
      ContainerResourceHookRequest → Cache → S → S × Outcome (Option ContainerResourceHookResponse)
  pub rebuild_allocations_from_cache : Cache → S → S

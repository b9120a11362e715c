-- ===== src/Server/Nri/Adjust.antt =====
-- convertToCtrAdjustment of server/nri/server.go: a hook's response becomes an adjustment of the
-- container. Only amounts and scores that are valid are passed on.
pub mod Bounds
use cloud_native.Prelude.{
  ℕ, ◌-◌, ◌^◌, Bool, true, false, ◌||◌, Option, none, some, List, [], ◌∷◌, ◌++◌, ◌==◌,
  if◌then◌else◌,
}
use cloud_native.Word64.{is_pos, slt}
use cloud_native.TopologyAware.Request.Devices.{Text, is_empty}
use cloud_native.Cache.Resources.{LinuxContainerResources}
use cloud_native.Server.HookManager.{ContainerResourceHookResponse}

-- What the helper methods of NRI's ContainerAdjustment have set
pub record ContainerAdjustment : Type 0 where
  pub cpu_period : Option ℕ
  pub cpu_quota : Option ℕ
  pub cpu_shares : Option ℕ
  pub cpuset_cpus : Option Text
  pub cpuset_mems : Option Text
  pub memory_limit : Option ℕ
  pub oom_score_adj : Option ℕ
  pub annotations : List (Text × Text)
  pub env : List (Text × Text)

-- `&api.ContainerAdjustment{}`
abbrev pub no_adjustment : ContainerAdjustment
no_adjustment = record {
  cpu_period = none;
  cpu_quota = none;
  cpu_shares = none;
  cpuset_cpus = none;
  cpuset_mems = none;
  memory_limit = none;
  oom_score_adj = none;
  annotations = [];
  env = [];
}

abbrev set_amount : ℕ → Option ℕ → Option ℕ
set_amount value old = if is_pos value then some value else old

abbrev set_text : Text → Option Text → Option Text
set_text value old = if is_empty value then old else some value

abbrev set_score : ℕ → Option ℕ → Option ℕ
set_score value old =
    if value == 0
    then old
    else if slt value (2 ^ 64 - 1000) || slt 1000 value
    then old
    else some value

unfoldable pub set_linux_resources :
    LinuxContainerResources → ContainerAdjustment → ContainerAdjustment
set_linux_resources r a = record a {
  cpu_period = set_amount r.cpu_period a.cpu_period;
  cpu_quota = set_amount r.cpu_quota a.cpu_quota;
  cpu_shares = set_amount r.cpu_shares a.cpu_shares;
  cpuset_cpus = set_text r.cpuset_cpus a.cpuset_cpus;
  cpuset_mems = set_text r.cpuset_mems a.cpuset_mems;
  memory_limit = set_amount r.memory_limit_in_bytes a.memory_limit;
  oom_score_adj = set_score r.oom_score_adj a.oom_score_adj;
}

with_resources : Option LinuxContainerResources → ContainerAdjustment → ContainerAdjustment
unfolding set_linux_resources
with_resources none a = a
with_resources (some r) a = set_linux_resources r a

with_annotations : Option (List (Text × Text)) → ContainerAdjustment → ContainerAdjustment
with_annotations none a = a
with_annotations (some annotations) a = record a { annotations = annotations }

-- `AddEnv` for each entry
with_envs : Option (List (Text × Text)) → ContainerAdjustment → ContainerAdjustment
with_envs none a = a
with_envs (some envs) a = record a { env = a.env ++ envs }

unfoldable pub convert_to_ctr_adjustment :
    Option ContainerResourceHookResponse → Option ContainerAdjustment
unfolding with_resources with_annotations with_envs
convert_to_ctr_adjustment none = none
convert_to_ctr_adjustment (some response) = some (
    with_envs response.container_envs (
      with_annotations response.container_annotations
        (with_resources response.container_resources no_adjustment)))

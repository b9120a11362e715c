-- ===== src/Server/DockerUtils.antt =====
-- server/docker/utils/utils.go: between Docker's messages and those of the proxy. Maps are lists of
-- entries in any order.
use cloud_native.Prelude.{
  ℕ, ◌&&◌, not, Option, none, some, List, [], ◌∷◌, ◌++◌, ◌==◌, if◌then◌else◌,
}
use cloud_native.TopologyAware.Request.Devices.{Text, codes, is_empty, split, has_infix}
use cloud_native.TopologyAware.Filter.{text_eq}
use cloud_native.Cache.Table.{find, put}
use cloud_native.Cache.Resources.{LinuxContainerResources}
use cloud_native.Cache.Pods.{has_prefix}

pub data RuntimeResourceType : Type 0 where
  pod_resource container_resource : RuntimeResourceType

-- `m[key]`, the empty text where there is no entry
or_empty : Option Text → Text
or_empty none = []
or_empty (some t) = t

unfoldable pub value_at : List (Text × Text) → Text → Text
unfolding or_empty
value_at m key = or_empty (find m key)

unfoldable pub get_runtime_resource_type : List (Text × Text) → RuntimeResourceType
unfolding value_at
get_runtime_resource_type labels =
    if text_eq (value_at labels (codes "io.kubernetes.docker.type")) (codes "podsandbox")
    then pod_resource
    else container_resource

-- `s[n:]`
drop_text : Text → Text → Text
drop_text [] s = s
drop_text (c ∷ prefix) [] = []
drop_text (c ∷ prefix) (d ∷ s) = drop_text prefix s

-- `strings.TrimPrefix(s, prefix)`
unfoldable pub trim_prefix : Text → Text → Text
unfolding drop_text has_prefix
trim_prefix s prefix = if has_prefix s prefix then drop_text prefix s else s

add_config :
    Text → Text → List (Text × Text) × List (Text × Text) → List (Text × Text) × List (Text × Text)
unfolding trim_prefix put
add_config key value (labels, annos) =
    if has_prefix key (codes "annotation.")
    then (labels, put annos (trim_prefix key (codes "annotation.")) value)
    else (put labels key value, annos)

unfoldable pub split_labels_and_annotations :
    List (Text × Text) → List (Text × Text) × List (Text × Text)
unfolding add_config
split_labels_and_annotations [] = ([], [])
split_labels_and_annotations ((key, value) ∷ configs) =
    add_config key value (split_labels_and_annotations configs)

-- The fields of Docker's HostConfig that the program reads or writes
pub record HostConfig : Type 0 where
  pub cpu_period : ℕ
  pub cpu_quota : ℕ
  pub cpu_shares : ℕ
  pub memory : ℕ
  pub oom_score_adj : ℕ
  pub cpuset_cpus : Text
  pub cpuset_mems : Text
  pub memory_swap : ℕ
  pub cgroup_parent : Text

unfoldable pub host_config_to_resource : Option HostConfig → Option LinuxContainerResources
host_config_to_resource none = none
host_config_to_resource (some config) = some (record {
  cpu_period = config.cpu_period;
  cpu_quota = config.cpu_quota;
  cpu_shares = config.cpu_shares;
  memory_limit_in_bytes = config.memory;
  oom_score_adj = config.oom_score_adj;
  cpuset_cpus = config.cpuset_cpus;
  cpuset_mems = config.cpuset_mems;
  memory_swap_limit_in_bytes = config.memory_swap;
})

unfoldable pub update_host_config_by_resource :
    Option HostConfig → Option LinuxContainerResources → Option HostConfig
update_host_config_by_resource none resources = none
update_host_config_by_resource (some config) none = some config
update_host_config_by_resource (some config) (some r) = some (record config {
  cpu_period = r.cpu_period;
  cpu_quota = r.cpu_quota;
  cpu_shares = r.cpu_shares;
  memory = r.memory_limit_in_bytes;
  oom_score_adj = r.oom_score_adj;
  cpuset_cpus = r.cpuset_cpus;
  cpuset_mems = r.cpuset_mems;
  memory_swap = r.memory_swap_limit_in_bytes;
})

prepend_first : ℕ → Option (Text × Text) → Option (Text × Text)
prepend_first c none = none
prepend_first c (some (first, rest)) = some (c ∷ first, rest)

-- The texts before and after the first `sep`, where there is one
unfoldable pub cut : ℕ → Text → Option (Text × Text)
unfolding prepend_first
cut sep [] = none
cut sep (c ∷ s) = let rest = cut sep s in if c == sep then some ([], s) else prepend_first c rest

add_env : Option (Text × Text) → List (Text × Text) → List (Text × Text)
unfolding put
add_env none envs = envs
add_env (some (key, value)) envs = put envs key value

add_envs : List Text → List (Text × Text) → List (Text × Text)
unfolding add_env cut
add_envs [] envs = envs
add_envs (str ∷ strs) envs = add_envs strs (add_env (cut 61 str) envs)

unfoldable pub split_docker_env : List Text → List (Text × Text)
unfolding add_envs
split_docker_env docker_envs = add_envs docker_envs []

unfoldable pub generate_env_list : List (Text × Text) → List Text
generate_env_list [] = []
generate_env_list ((key, value) ∷ envs) = (key ++ codes "=" ++ value) ∷ generate_env_list envs

unfoldable pub parse_docker_response_code : Text → ℕ
parse_docker_response_code response =
    if has_infix (codes "No such container") response
    then 404
    else if has_infix (codes "container already stopped") response
    then 304
    else if has_infix (codes "server error") response
    then 500
    else 204

-- The loop over the pieces of a slice's name: "a-b-c.slice" is /a.slice/a-b.slice/a-b-c.slice.
climb_slices : (Text → Text → Text) → Text → Text → List Text → Text
climb_slices join full prefix [] = join full prefix
climb_slices join full prefix (piece ∷ pieces) =
    climb_slices join (join full (prefix ++ codes ".slice")) (prefix ++ codes "-" ++ piece) pieces

slices_of : (Text → Text → Text) → List Text → Text
unfolding climb_slices
slices_of join [] = codes "/"
slices_of join (prefix ∷ pieces) = climb_slices join (codes "/") prefix pieces

-- `join` is `path.Join`.
unfoldable pub to_cri_cgroup_path : (Text → Text → Text) → Text → Text → Text
unfolding slices_of
to_cri_cgroup_path join driver parent =
    if not (text_eq driver (codes "systemd"))
    then parent
    else if is_empty parent
    then parent
    else slices_of join (split 45 parent)

-- `base` is `path.Base`.
unfoldable pub generate_expected_cgroup_parent : (Text → Text) → Text → Text → Text
generate_expected_cgroup_parent base driver parent =
    if not (is_empty parent) && text_eq driver (codes "systemd") then base parent else parent

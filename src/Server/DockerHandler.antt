-- ===== src/Server/DockerHandler.antt =====
-- server/docker/handler.go: the HTTP handlers between the kubelet and the Docker daemon.
pub mod Cleaned
pub mod Sandboxes
use cloud_native.Prelude.{
  ℕ, Bool, true, false, ◌||◌, ◌&&◌, not, Option, none, some, List, [], ◌∷◌, ◌==◌, if◌then◌else◌,
}
use cloud_native.TopologyAware.Outcome.{Outcome, panic, err, ok}
use cloud_native.TopologyAware.Request.Devices.{Text, codes, is_empty, split}
use cloud_native.Cache.Resources.{LinuxContainerResources}
use cloud_native.Cache.Messages.{ContainerMetadata, ContainerResourceHookRequest}
use cloud_native.Cache.Pods.{Pod}
use cloud_native.Cache.Containers.{Container}
use cloud_native.Cache.Store.{Cache, lookup_container, lookup_pod, delete_container, delete_pod}
use cloud_native.Cache.Validate.{validate_cached_containers, cleanup_stale_containers}
use cloud_native.Server.HookManager.{ContainerResourceHookResponse, HookManager}
use cloud_native.Server.DockerUtils.{
  HostConfig, host_config_to_resource, update_host_config_by_resource, split_docker_env,
  generate_env_list, generate_expected_cgroup_parent, parse_docker_response_code,
  split_labels_and_annotations, value_at, RuntimeResourceType, get_runtime_resource_type,
}
use cloud_native.Server.Dispatcher.{
  build_container_resource_hook_request, parse_stop_container_request, skip_tap_handle,
  insert_if_need,
}

-- The ids of a listing; an error leaves the nil list.
unfoldable pub listed_ids : Option (List Text) → List Text
listed_ids none = []
listed_ids (some ids) = ids

-- `answer` is what the daemon lists as running or created, `none` an error, which is only logged.
unfoldable pub clean_cache : Option (List Text) → Cache → Cache
unfolding listed_ids validate_cached_containers cleanup_stale_containers
clean_cache answer c =
    (cleanup_stale_containers (validate_cached_containers (listed_ids answer) c) c).1

-- `if _, exist := lookup; exist { delete }`
forget_container : Option Container → Text → Cache → Cache
unfolding delete_container
forget_container none id c = c
forget_container (some o) id c = delete_container id c

forget_pod : Option Pod → Text → Cache → Cache
unfolding delete_pod
forget_pod none id c = c
forget_pod (some p) id c = delete_pod id c

-- After the daemon has had the request. The id may be that of a container or of a pod.
unfoldable pub handle_delete_container : Text → Cache → Cache
unfolding forget_container forget_pod lookup_container lookup_pod
handle_delete_container id c =
    let d = forget_container (lookup_container id c) id c in forget_pod (lookup_pod id d) id d

-- What is sent to the daemon on a creation: the fields that a response rewrites
pub record ConfigWrapper : Type 0 where
  pub host_config : Option HostConfig
  pub env : List Text

-- A parsed creation; `labels` are those of the container's Config.
pub record DockerCreateRequest : Type 0 where
  pub config : ConfigWrapper
  pub labels : List (Text × Text)
  pub resource_type : RuntimeResourceType
  pub raw_label : List (Text × Text)
  pub raw_annotations : List (Text × Text)
  pub container_name : Text
  pub pod_name : Text
  pub pod_namespace : Text
  pub pod_uid : Text

parse_tokens : List Text → ConfigWrapper → List (Text × Text) → Option DockerCreateRequest
unfolding split_labels_and_annotations get_runtime_resource_type
parse_tokens (kind ∷ name ∷ pod ∷ namespace ∷ uid ∷ attempt ∷ []) config labels =
    let (raw, annos) = split_labels_and_annotations labels in
    some (record {
      config = config;
      labels = labels;
      resource_type = get_runtime_resource_type labels;
      raw_label = raw;
      raw_annotations = annos;
      container_name = name;
      pod_name = pod;
      pod_namespace = namespace;
      pod_uid = uid;
    })
parse_tokens _ config labels = none

-- ParseRequest of a body that decodes; the name must have six parts.
unfoldable pub parse_request :
    Text → ConfigWrapper → List (Text × Text) → Option DockerCreateRequest
unfolding parse_tokens
parse_request name config labels = parse_tokens (split 95 name) config labels

-- The requests that a response rewrites together
abbrev pub DockerRequests : Type 0
DockerRequests = ConfigWrapper × ContainerResourceHookRequest

fill_host_config : Option LinuxContainerResources → DockerRequests → DockerRequests
unfolding update_host_config_by_resource
fill_host_config none r = r
fill_host_config (some res) (config, hook) = (
  record config { host_config = update_host_config_by_resource config.host_config (some res) },
  record hook { container_resources = some res },
)

fill_cgroup : (Text → Text) → Text → Text → Option HostConfig → DockerRequests → DockerRequests
unfolding generate_expected_cgroup_parent
fill_cgroup base driver parent none r = r
fill_cgroup base driver parent (some host) (config, hook) =
    if is_empty parent then (config, hook) else (
      record config {
        host_config =
            some
              (record host { cgroup_parent = generate_expected_cgroup_parent base driver parent });
      },
      record hook { pod_cgroup_parent = parent },
    )

fill_env : Option (List (Text × Text)) → DockerRequests → DockerRequests
unfolding generate_env_list
fill_env none r = r
fill_env (some envs) (config, hook) =
    (record config { env = generate_env_list envs }, record hook { container_envs = envs })

-- BackfillContainerRequest for a ConfigWrapper. `base` is `path.Base`.
unfoldable pub backfill_docker_request :
    (Text → Text) → Text → ContainerResourceHookResponse → DockerRequests → DockerRequests
unfolding fill_host_config fill_cgroup fill_env
backfill_docker_request base driver resp r =
    let filled = fill_host_config resp.container_resources r in
    fill_env resp.container_envs
      (fill_cgroup base driver resp.pod_cgroup_parent filled.0.host_config filled)

backfill_docker :
    (Text → Text)
    → Text
    → Outcome (Option ContainerResourceHookResponse)
    → DockerRequests
    → Outcome DockerRequests
unfolding backfill_docker_request
backfill_docker base driver panic r = panic
backfill_docker base driver (err e) r = ok r
backfill_docker base driver (ok none) r = ok r
backfill_docker base driver (ok (some resp)) r = ok (backfill_docker_request base driver resp r)

-- The daemon: what it answers to a creation, of which the id is read, and to a stop. An answer that
-- has no id, as that to a creation that it refuses, reads as the empty id.
pub record DockerDaemon (D : Type 0) : Type 0 where
  pub create : ConfigWrapper → D → D × Text
  pub stop : Text → D → D × Text
  pub list : D → Option (List Text)

module _ {S D : Type 0} (manager : HookManager S) (daemon : DockerDaemon D) (base : Text → Text)
    (driver : Text) where
  -- The hook and the backfill of a creation whose pod is known
  shown_docker :
      DockerCreateRequest
      → ContainerResourceHookRequest
      → Pod
      → Cache
      → S
      → S × Outcome DockerRequests
  unfolding backfill_docker skip_tap_handle
  shown_docker req hook pod c s =
      if skip_tap_handle pod.labels
      then (s, ok (req.config, hook))
      else let (t, response) = manager.pre_create_container_hook hook c s in
        (t, backfill_docker base driver response (req.config, hook))

  send_create : S × Outcome DockerRequests → Cache → D → S × D × Outcome Cache
  unfolding insert_if_need
  send_create (s, panic) c d = (s, d, panic)
  send_create (s, err e) c d = (s, d, err e)
  send_create (s, ok (config, hook)) c d =
      let (f, id) = daemon.create config d in (s, f, insert_if_need id hook c)

  create_in : DockerCreateRequest → Option Pod → S × D × Cache → S × D × Outcome Cache
  unfolding send_create shown_docker build_container_resource_hook_request host_config_to_resource
      split_docker_env
  create_in req none (s, d, c) = (s, d, ok c)
  create_in req (some pod) (s, d, c) =
      let hook =
        build_container_resource_hook_request pod (record { name = req.container_name; id = [] })
          req.raw_annotations (host_config_to_resource req.config.host_config)
          (split_docker_env req.config.env) in
      send_create (shown_docker req hook pod c s) c d

  -- HandleCreateContainer for a container: the stale containers go first, and a container whose pod
  -- is not known is refused.
  unfoldable pub handle_create_container :
      DockerCreateRequest → S × D × Cache → S × D × Outcome Cache
  unfolding create_in clean_cache lookup_pod value_at
  handle_create_container req (s, d, c) =
      let cleaned = clean_cache (daemon.list d) c in
      create_in req (lookup_pod (value_at req.labels (codes "io.kubernetes.sandbox.id")) cleaned)
        (s, d, cleaned)

  forget_stopped : Text → Option Container → S × Cache → S × Cache
  unfolding delete_container parse_stop_container_request
  forget_stopped id none (s, c) = (s, c)
  forget_stopped id (some o) (s, c) =
      let (t, response) = manager.post_stop_container_hook (parse_stop_container_request id) c s in
      (t, delete_container id c)

  after_stop : ℕ → Text → S × Cache → S × Cache
  unfolding forget_stopped lookup_container
  after_stop code id (s, c) =
      if not (code == 204) && not (code == 304)
      then (s, c)
      else forget_stopped id (lookup_container id c) (s, c)

  -- The daemon is asked first; the hook runs only if it stopped a container that is cached.
  unfoldable pub handle_stop_container : Text → S × D × Cache → S × D × Cache
  unfolding after_stop parse_docker_response_code
  handle_stop_container id (s, d, c) =
      if is_empty id
      then (s, d, c)
      else let (f, response) = daemon.stop id d in
        let (t, e) = after_stop (parse_docker_response_code response) id (s, c) in (t, f, e)

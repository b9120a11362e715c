-- ===== src/Server/DockerHandler/Sandboxes.antt =====
-- HandleCreateContainer of docker/handler.go for a container that is the sandbox of a pod.
use cloud_native.Prelude.{Option, none, some, [], if◌then◌else◌}
use cloud_native.TopologyAware.Outcome.{Outcome, panic, err, ok}
use cloud_native.TopologyAware.Request.Devices.{Text, is_empty}
use cloud_native.Cache.Resources.{LinuxContainerResources}
use cloud_native.Cache.Messages.{PodSandboxHookRequest}
use cloud_native.Cache.Pods.{pod_hook_request}
use cloud_native.Cache.Store.{Cache, insert_pod, logged}
use cloud_native.Server.DockerUtils.{
  HostConfig, host_config_to_resource, update_host_config_by_resource,
  generate_expected_cgroup_parent, to_cri_cgroup_path,
}
use cloud_native.Server.Dispatcher.{skip_tap_handle}
use cloud_native.Server.Dispatcher.Pods.{PodSandboxHookResponse, PodHook}
use cloud_native.Server.DockerHandler.{
  ConfigWrapper, DockerCreateRequest, DockerDaemon, clean_cache,
}

-- What a sandbox's creation sends and shows, which a response rewrites together
abbrev pub SandboxRequests : Type 0
SandboxRequests = ConfigWrapper × PodSandboxHookRequest

module _ (join : Text → Text → Text) (base : Text → Text) (driver : Text) where
  sandbox_shown : DockerCreateRequest → HostConfig → PodSandboxHookRequest
  unfolding to_cri_cgroup_path host_config_to_resource
  sandbox_shown req host = record {
    pod_meta =
        some (record {
          name = req.pod_name;
          uid = req.pod_uid;
          namespace = req.pod_namespace;
          id = [];
        });
    labels = req.raw_label;
    annotations = req.raw_annotations;
    cgroup_parent = to_cri_cgroup_path join driver host.cgroup_parent;
    resources = host_config_to_resource (some host);
  }

  -- ParsePodRequest for Docker. A nil HostConfig ends the program.
  unfoldable pub parse_docker_pod_request : DockerCreateRequest → Outcome PodSandboxHookRequest
  unfolding sandbox_shown
  parse_docker_pod_request req = elim req.config.host_config [
    | none ↦ panic
    | some host ↦ ok (sandbox_shown req host)
  ]

  fill_sandbox_resources : Option LinuxContainerResources → SandboxRequests → SandboxRequests
  unfolding update_host_config_by_resource
  fill_sandbox_resources none r = r
  fill_sandbox_resources (some res) (config, hook) = (
    record config { host_config = update_host_config_by_resource config.host_config (some res) },
    record hook { resources = some res },
  )

  fill_sandbox_parent : Text → Option HostConfig → SandboxRequests → SandboxRequests
  unfolding generate_expected_cgroup_parent
  fill_sandbox_parent parent none r = r
  fill_sandbox_parent parent (some host) (config, hook) =
      if is_empty parent then (config, hook) else (
        record config {
          host_config =
              some (record host {
                cgroup_parent = generate_expected_cgroup_parent base driver parent;
              });
        },
        record hook { cgroup_parent = parent },
      )

  -- BackfillPodRequest for a ConfigWrapper: labels and annotations are not written back.
  unfoldable pub backfill_docker_pod_request :
      PodSandboxHookResponse → SandboxRequests → SandboxRequests
  unfolding fill_sandbox_resources fill_sandbox_parent
  backfill_docker_pod_request resp r =
      let filled = fill_sandbox_resources resp.resources r in
      fill_sandbox_parent resp.cgroup_parent filled.0.host_config filled

  backfill_sandbox :
      Outcome (Option PodSandboxHookResponse) → SandboxRequests → Outcome SandboxRequests
  unfolding backfill_docker_pod_request
  backfill_sandbox panic r = panic
  backfill_sandbox (err e) r = ok r
  backfill_sandbox (ok none) r = ok r
  backfill_sandbox (ok (some resp)) r = ok (backfill_docker_pod_request resp r)

  module _ {S D : Type 0} (hook : PodHook S) (daemon : DockerDaemon D) where
    -- The response of the daemon gives the id; an error of the insertion is logged.
    send_sandbox : S × Outcome SandboxRequests → Cache → D → S × D × Outcome Cache
    unfolding insert_pod
    send_sandbox (s, panic) c d = (s, d, panic)
    send_sandbox (s, err e) c d = (s, d, err e)
    send_sandbox (s, ok (config, req)) c d =
        let (f, id) = daemon.create config d in
        (s, f, logged c (insert_pod id (pod_hook_request req) none c))

    shown_sandbox :
        DockerCreateRequest → Outcome PodSandboxHookRequest → S → S × Outcome SandboxRequests
    unfolding backfill_sandbox skip_tap_handle
    shown_sandbox req panic s = (s, panic)
    shown_sandbox req (err e) s = (s, err e)
    shown_sandbox req (ok shown) s =
        if skip_tap_handle req.raw_label
        then (s, ok (req.config, shown))
        else let (t, answer) = hook shown s in (t, backfill_sandbox answer (req.config, shown))

    unfoldable pub handle_create_sandbox :
        DockerCreateRequest → S × D × Cache → S × D × Outcome Cache
    unfolding send_sandbox shown_sandbox parse_docker_pod_request clean_cache
    handle_create_sandbox req (s, d, c) =
        send_sandbox (shown_sandbox req (parse_docker_pod_request req) s)
          (clean_cache (daemon.list d) c) d

-- ===== src/Server/Examples.antt =====
-- The servers at concrete requests.
use cloud_native.Prelude.{◌-◌, ◌^◌, ◌≡◌, refl, true, Option, none, some, [], ◌∷◌, arith}
use cloud_native.TopologyAware.Outcome.{ok}
use cloud_native.TopologyAware.Request.Devices.{Text, codes}
use cloud_native.TopologyAware.Filter.{text_eq}
use cloud_native.TopologyAware.Hooks.{QosClass}
use cloud_native.Cache.Table.{find}
use cloud_native.Cache.Resources.{no_resources}
use cloud_native.Cache.Messages.{
  NriSandbox, NriContainer, nri_created, ContainerResourceHookRequest,
}
use cloud_native.Cache.Pods.{Pod, ready, read_pod}
use cloud_native.Cache.Containers.{read_container}
use cloud_native.Cache.Store.{Cache, new_cache, lookup_pod}
use cloud_native.Server.Nri.{create_container}
use cloud_native.Server.Nri.Adjust.{
  ContainerAdjustment, no_adjustment, convert_to_ctr_adjustment, set_linux_resources,
}
use cloud_native.Server.Nri.Adjust.Bounds.{IsInRange, convert_to_ctr_adjustment-IsInRange}
use cloud_native.Server.Nri.Created.{IsCached, create_container-IsCached}
use cloud_native.Server.HookManager.{HookManager, ContainerResourceHookResponse}
use cloud_native.Server.Dispatcher.{
  CreateContainerRequest, Runtime, parse_cri_create_container_request, shown, skip_tap_handle,
  intercept_create,
}
use cloud_native.Server.Dispatcher.Pods.{
  RunPodSandboxRequest, intercept_run_pod, pre_run_pod_sandbox_hook,
}
use cloud_native.Server.Dispatcher.Pods.Transparent.{
  IsCachedPod, AreKept, intercept_run_pod-IsCachedPod,
}
use cloud_native.Server.Dispatcher.Agrees.{IsNoted, intercept_create-IsNoted}

-- The hook answers with a CPU set.
abbrev answer : ContainerResourceHookResponse
answer = record {
  container_annotations = none;
  container_resources = some (record no_resources {
    cpuset_cpus = codes "0-3";
    cpu_shares = 2 ^ 64 - 1;
    oom_score_adj = 2000;
  });
  pod_cgroup_parent = [];
  container_envs = none;
}

abbrev adjustment : ContainerAdjustment
adjustment = record no_adjustment { cpuset_cpus = some (codes "0-3") }

convert_to_ctr_adjustment-IsInRange_example : IsInRange adjustment
unfolding convert_to_ctr_adjustment set_linux_resources
convert_to_ctr_adjustment-IsInRange_example =
    convert_to_ctr_adjustment-IsInRange answer adjustment (ground arith) refl

abbrev manager : HookManager (Unit {0})
manager = record {
  pre_create_container_hook = λ req c s. (s, ok (some answer));
  post_stop_container_hook = λ req c s. (s, ok none);
  pre_remove_container_hook = λ req c s. (s, ok none);
  rebuild_allocations_from_cache = λ c s. s;
}

abbrev sandbox : NriSandbox
sandbox = record {
  id = codes "p";
  uid = codes "u";
  name = codes "pod";
  namespace = codes "default";
  labels = [];
  annotations = [];
  linux = none;
}

abbrev nri : NriContainer
nri = record {
  id = codes "a";
  pod_sandbox_id = codes "p";
  name = codes "main";
  state = nri_created;
  annotations = [];
  env = [];
  linux = none;
}

create_container-IsCached_example :
    IsCached nri (create_container manager sandbox nri (tt, new_cache)).1
unfolding create_container convert_to_ctr_adjustment set_linux_resources find read_pod
    read_container text_eq
create_container-IsCached_example =
    create_container-IsCached manager sandbox nri tt new_cache (some adjustment) refl
      (λ k pod h. cc) refl

abbrev pod : Pod
pod = record {
  id = codes "p";
  uid = codes "u";
  name = codes "pod";
  namespace = codes "default";
  annotations = [];
  labels = [];
  state = ready;
  qos_class = QosClass.guaranteed;
  linux_req = none;
  cgroup_parent = [];
  containers = some [];
}

abbrev with_pod : Cache
with_pod = record new_cache { pods = (codes "p", pod) ∷ [] }

abbrev runtime : Runtime (Unit {0})
runtime = record {
  create_container = λ req r. (r, some (codes "a"));
  stop_container = λ id r. (r, true);
}

abbrev request : CreateContainerRequest
request = record {
  pod_sandbox_id = codes "p";
  name = codes "main";
  labels = [];
  annotations = [];
  envs = [];
  resources = none;
  sandbox_cgroup_parent = [];
}

abbrev hook : ContainerResourceHookRequest
hook = record {
  pod_meta =
      some (record {
        name = codes "pod";
        uid = codes "u";
        namespace = codes "default";
        id = codes "p";
      });
  container_meta = some (record { name = codes "main"; id = [] });
  container_annotations = [];
  container_resources = none;
  pod_resources = none;
  pod_annotations = [];
  pod_labels = [];
  pod_cgroup_parent = [];
  container_envs = [];
}

-- What is sent to the runtime
abbrev sent : CreateContainerRequest
sent = record request {
  resources = some (record {
    cpu_period = 0;
    cpu_quota = 0;
    cpu_shares = 2 ^ 64 - 1;
    memory_limit_in_bytes = 0;
    oom_score_adj = 2000;
    cpuset_cpus = codes "0-3";
    cpuset_mems = [];
    memory_swap_limit_in_bytes = 0;
  });
}

intercept_create-IsNoted_example :
    IsNoted manager runtime
      (codes "p")
      sent
      (codes "a")
      (intercept_create manager runtime request (tt, tt, with_pod)).2
unfolding lookup_pod find text_eq parse_cri_create_container_request shown skip_tap_handle
intercept_create-IsNoted_example =
    intercept_create-IsNoted manager runtime request sent hook
      (record hook { container_resources = answer.container_resources }) tt tt with_pod pod []
      (codes "a") refl refl refl refl refl refl

abbrev run_request : RunPodSandboxRequest
run_request = record {
  name = codes "pod";
  namespace = codes "default";
  uid = codes "u";
  labels = (codes "app", codes "web") ∷ [];
  annotations = [];
  linux = some (record { cgroup_parent = codes "/kubepods/podu"; resources = none });
}

abbrev run_sandbox : RunPodSandboxRequest → Unit {0} → Unit {0} × Option Text
run_sandbox req r = (r, some (codes "q"))

intercept_run_pod-IsCachedPod_example :
    (d : Cache) × (intercept_run_pod pre_run_pod_sandbox_hook run_sandbox run_request
        (tt, tt, with_pod)
      ≡ (tt, tt, ok d))
    × IsCachedPod run_request (codes "q") d
    × AreKept (codes "q") with_pod d
intercept_run_pod-IsCachedPod_example =
    intercept_run_pod-IsCachedPod run_sandbox run_request tt tt with_pod (codes "q") refl refl

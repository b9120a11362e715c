-- ===== src/Cache/Examples.antt =====
-- Runs of the cache's operations, and the theorems at concrete inputs.
use cloud_native.Prelude.{zero, suc, ◌≡◌, ◌↔◌, ◌≢◌, refl, none, some, List, [], ◌∷◌, subst, arith}
use cloud_native.TopologyAware.Outcome.{ok}
use cloud_native.TopologyAware.Request.Devices.{Text, codes}
use cloud_native.TopologyAware.Filter.{text_eq}
use cloud_native.TopologyAware.Rebuild.ContainerState.{running, creating}
use cloud_native.TopologyAware.Hooks.{QosClass}
use cloud_native.Cache.Table.{find, put}
use cloud_native.Cache.Resources.{no_resources}
use cloud_native.Cache.Messages.{NriSandbox, NriContainer, nri_running}
use cloud_native.Cache.Pods.{new_pod, nri_sandbox, ready}
use cloud_native.Cache.Containerd.{ListedContainer, ContainerInfo, process_container}
use cloud_native.Cache.Containerd.Restored.{IsRestored, process_container-IsRestored}
use cloud_native.Server.DockerHandler.{clean_cache}
use cloud_native.Server.DockerHandler.Cleaned.{IsReported, view-clean_cache_iff}
use cloud_native.Server.DockerUtils.{HostConfig}
use cloud_native.Cache.Containers.{
  Container, nri_container, other_message, from_basic_info, new_container, read_container,
}
use cloud_native.Cache.Store.{Cache, new_cache, insert_container, lookup_pod}
use cloud_native.Cache.Store.Valid.{IsValid, insert_container-IsValid}
use cloud_native.Cache.Store.View.{view}
use cloud_native.Cache.Store.Refine.{
  Call, insert_pod_call, insert_call, set_state_call, delete_call, run, seen, map_ok, spec_run,
  run-seen,
}
use cloud_native.Cache.Setters.Range.{
  IsFit, IsWithin, some_inj, oom_score_adj, apply, apply-IsWithin,
}
use cloud_native.Cache.Refresh.{refresh_pods, blocked}
use cloud_native.Cache.Refresh.Deadlock.{refresh_pods_lem}
use cloud_native.Cache.Load.{DockerClient, DockerContainer}

abbrev sandbox : NriSandbox
sandbox = record {
  id = codes "p";
  uid = codes "u";
  name = codes "pod";
  namespace = codes "default";
  labels = [];
  annotations = [];
  linux = none;
}

abbrev nri : NriContainer
nri = record {
  id = codes "a";
  pod_sandbox_id = codes "p";
  name = codes "main";
  state = nri_running;
  annotations = [];
  env = [];
  linux = none;
}

a_named : codes "a" ≢ []
a_named e = cc

new_cache-IsValid : IsValid new_cache
unfolding find
new_cache-IsValid = record { entries = λ k a h. cc; no_empty = refl; distinct = tt }

abbrev calls : List Call
calls =
    insert_pod_call (codes "p") (nri_sandbox sandbox) none
    ∷ insert_call (codes "a") (nri_container nri)
    ∷ set_state_call (codes "a") running
    ∷ delete_call (codes "a")
    ∷ []

run-seen_example : map_ok seen (run calls new_cache) ≡ spec_run calls (seen new_cache)
run-seen_example = run-seen calls new_cache (tt, (a_named, (tt, (tt, tt)))) new_cache-IsValid

abbrev object : Container
object = record new_container {
  id = codes "a";
  name = codes "a";
  cache_id = codes "a";
  state = creating;
}

-- One container, under its cache id
abbrev pub one : Cache
one = record new_cache { containers = (codes "a", 0) ∷ []; heap = object ∷ [] }

pub one-IsValid : IsValid one
unfolding insert_container from_basic_info read_container put
one-IsValid =
    insert_container-IsValid (codes "a") other_message new_cache {d = one} a_named new_cache-IsValid
      refl

no_resources-IsFit : (o : Container) → o.linux_req ≡ none → IsFit o
no_resources-IsFit o e r h = cc

one-IsWithin : IsWithin one.heap
one-IsWithin zero o h = subst IsFit (some_inj h) (no_resources-IsFit object refl)
one-IsWithin (suc a) o h = cc

apply-IsWithin_example : IsWithin (apply (oom_score_adj 500) 0 one).heap
apply-IsWithin_example = apply-IsWithin (oom_score_adj 500) 0 one (ground arith) one-IsWithin

refresh_pods_lem_example : refresh_pods (codes "p" ∷ []) one ≡ blocked
unfolding find
refresh_pods_lem_example = refresh_pods_lem (codes "p" ∷ []) one

-- The daemon answers with a longer id.
view-clean_cache_iff_example :
    (view (clean_cache (some (codes "ab" ∷ [])) one) (codes "a") ≡ some object)
    ↔ ((view one (codes "a") ≡ some object) × IsReported (some (codes "ab" ∷ [])) (codes "a"))
view-clean_cache_iff_example =
    view-clean_cache_iff (some (codes "ab" ∷ [])) one (codes "a") object one-IsValid

abbrev docker_type : Text × Text
docker_type = (codes "io.kubernetes.docker.type", codes "podsandbox")

abbrev docker_containers : List DockerContainer
docker_containers =
    record { id = codes "s"; labels = docker_type ∷ [] }
    ∷ record { id = codes "c"; labels = (codes "io.kubernetes.sandbox.id", codes "s") ∷ [] }
    ∷ []

abbrev host : HostConfig
host = record {
  cpu_period = 0;
  cpu_quota = 0;
  cpu_shares = 1024;
  memory = 0;
  oom_score_adj = 0;
  cpuset_cpus = [];
  cpuset_mems = [];
  memory_swap = 0;
  cgroup_parent = codes "kubepods/burstable";
}

abbrev client : DockerClient
client = record {
  container_list = some docker_containers;
  inspect = λ id. some (record { name = id; host_config = some host; env = none });
}

-- The cache with the sandbox
abbrev loaded : Cache
loaded = record new_cache {
  pods =
      (
        codes "s",
        record {
          id = codes "s";
          uid = codes "s";
          name = codes "s";
          namespace = [];
          annotations = [];
          labels = docker_type ∷ [];
          state = ready;
          qos_class = QosClass.burstable;
          linux_req = some (record no_resources { cpu_shares = 1024 });
          cgroup_parent = codes "kubepods/burstable";
          containers = some [];
        },
      )
      ∷ [];
}

abbrev second : Text → Text → Text
second a b = b

abbrev with_sandbox : Cache
with_sandbox = record new_cache {
  pods = (codes "s", record (new_pod (codes "s")) { containers = some [] }) ∷ [];
}

abbrev listed : ListedContainer
listed = record {
  id = codes "a";
  name = codes "n";
  pod_sandbox_id = codes "s";
  annotations = [];
  state = running;
}

abbrev listed_info : ContainerInfo
listed_info = record {
  envs = none;
  runtime_spec = some (record {
    resources =
        some (record { cpu = none; memory = some (record { limit = some 4096; swap = none }) });
    oom_score_adj = some 5;
    annotations = [];
  });
}

process_container-IsRestored_example :
    (d : Cache) × (process_container listed (some listed_info) with_sandbox ≡ ok d)
    × IsRestored listed listed_info d
unfolding lookup_pod find text_eq
process_container-IsRestored_example =
    process_container-IsRestored listed listed_info with_sandbox
      (record (new_pod (codes "s")) { containers = some [] }) [] refl refl

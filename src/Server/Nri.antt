-- ===== src/Server/Nri.antt =====
-- server/nri/server.go: the plugin that containerd calls. The hooks and the cache do the work.
pub mod Adjust
pub mod Convert
pub mod Created
use cloud_native.Prelude.{Bool, true, false, Option, none, some, List, [], ◌∷◌}
use cloud_native.TopologyAware.Outcome.{Outcome, panic, err, ok, ◌>>=◌}
use cloud_native.TopologyAware.Request.Devices.{Text}
use cloud_native.Cache.Messages.{NriContainer, NriSandbox}
use cloud_native.Cache.Pods.{Pod, nri_sandbox}
use cloud_native.Cache.Containers.{Container, nri_container}
use cloud_native.Cache.Store.{
  Cache, insert_pod, delete_pod, lookup_pod, insert_container, delete_container, lookup_container,
  logged,
}
use cloud_native.Server.HookManager.{ContainerResourceHookResponse, HookManager}
use Adjust.{ContainerAdjustment, convert_to_ctr_adjustment}
use Convert.{convert_to_hook_request, extract_cgroup_parent}

-- The `if` on a lookup of a pod: it is inserted if it is not there.
sync_pod : Option Pod → NriSandbox → Cache → Outcome Cache
unfolding insert_pod
sync_pod (some known) pod c = ok c
sync_pod none pod c = logged c (insert_pod pod.id (nri_sandbox pod) (some []) c)

-- Nil pods are skipped.
unfoldable pub synchronize_pods : List (Option NriSandbox) → Cache → Outcome Cache
unfolding sync_pod lookup_pod
synchronize_pods [] c = ok c
synchronize_pods (none ∷ pods) c = synchronize_pods pods c
synchronize_pods (some pod ∷ pods) c =
    sync_pod (lookup_pod pod.id c) pod c >>= synchronize_pods pods

sync_container : Option Container → NriContainer → Cache → Outcome Cache
unfolding insert_container
sync_container (some known) container c = ok c
sync_container none container c =
    logged c (insert_container container.id (nri_container container) c)

unfoldable pub synchronize_containers : List (Option NriContainer) → Cache → Outcome Cache
unfolding sync_container lookup_container
synchronize_containers [] c = ok c
synchronize_containers (none ∷ containers) c = synchronize_containers containers c
synchronize_containers (some container ∷ containers) c =
    sync_container (lookup_container container.id c) container c
    >>= synchronize_containers containers

unfoldable pub run_pod_sandbox : NriSandbox → Cache → Outcome Cache
unfolding insert_pod extract_cgroup_parent
run_pod_sandbox pod c = insert_pod pod.id (nri_sandbox pod) (some (extract_cgroup_parent pod)) c

unfoldable pub remove_pod_sandbox : NriSandbox → Cache → Cache
unfolding delete_pod
remove_pod_sandbox pod c = delete_pod pod.id c

-- The first `if` of CreateContainer
ensure_pod : Option Pod → NriSandbox → Cache → Outcome Cache
unfolding insert_pod extract_cgroup_parent
ensure_pod (some known) pod c = ok c
ensure_pod none pod c = insert_pod pod.id (nri_sandbox pod) (some (extract_cgroup_parent pod)) c

-- What a handler leaves, and what it returns
abbrev pub Handled : Type 0 → Type 0 → Type 0
Handled S A = S × Cache × Outcome A

module _ {S : Type 0} (manager : HookManager S) where
  -- The error of the rebuild is logged.
  unfoldable pub synchronize :
      List (Option NriSandbox) → List (Option NriContainer) → S × Cache → Outcome (S × Cache)
  unfolding synchronize_pods synchronize_containers
  synchronize pods containers (s, c) =
      synchronize_pods pods c >>= synchronize_containers containers >>= λ d.
      ok (manager.rebuild_allocations_from_cache d s, d)

  -- The error of the insertion is logged.
  after_insert :
      S
      → Cache
      → Option ContainerAdjustment
      → Outcome Cache
      → Handled S (Option ContainerAdjustment)
  after_insert s c adjustment panic = (s, c, panic)
  after_insert s c adjustment (err e) = (s, c, ok adjustment)
  after_insert s c adjustment (ok d) = (s, d, ok adjustment)

  after_hook :
      NriContainer
      → Cache
      → S × Outcome (Option ContainerResourceHookResponse)
      → Handled S (Option ContainerAdjustment)
  unfolding after_insert convert_to_ctr_adjustment insert_container
  after_hook container c (s, panic) = (s, c, panic)
  after_hook container c (s, err e) = (s, c, err e)
  after_hook container c (s, ok response) =
      after_insert s c (convert_to_ctr_adjustment response)
        (insert_container container.id (nri_container container) c)

  -- What follows the insertion of the pod, which leaves the cache as it is where it fails.
  created_in :
      NriSandbox → NriContainer → S → Cache → Outcome Cache → Handled S (Option ContainerAdjustment)
  unfolding after_hook convert_to_hook_request
  created_in pod container s c panic = (s, c, panic)
  created_in pod container s c (err e) = (s, c, err e)
  created_in pod container s c (ok d) =
      after_hook container d
        (manager.pre_create_container_hook (convert_to_hook_request pod container) d s)

  unfoldable pub create_container :
      NriSandbox → NriContainer → S × Cache → Handled S (Option ContainerAdjustment)
  unfolding created_in ensure_pod lookup_pod
  create_container pod container (s, c) =
      created_in pod container s c (ensure_pod (lookup_pod pod.id c) pod c)

  -- The container stays in the cache.
  unfoldable pub stop_container :
      NriSandbox → NriContainer → S × Cache → Handled S (Option ContainerResourceHookResponse)
  unfolding convert_to_hook_request
  stop_container pod container (s, c) =
      let (t, response) =
        manager.post_stop_container_hook (convert_to_hook_request pod container) c s in
      (t, c, response)

  removed :
      Text
      → Cache
      → S × Outcome (Option ContainerResourceHookResponse)
      → Handled S (Option ContainerResourceHookResponse)
  unfolding delete_container
  removed id c (s, panic) = (s, c, panic)
  removed id c (s, err e) = (s, c, err e)
  removed id c (s, ok response) = (s, delete_container id c, ok response)

  unfoldable pub remove_container :
      NriSandbox → NriContainer → S × Cache → Handled S (Option ContainerResourceHookResponse)
  unfolding removed convert_to_hook_request
  remove_container pod container (s, c) =
      removed container.id c
        (manager.pre_remove_container_hook (convert_to_hook_request pod container) c s)

-- ===== src/Server/Nri/Created.antt =====
-- A container that CreateContainer accepts is in the cache.
use cloud_native.Prelude.{Option, none, some, List, [], ◌≡◌, refl, sym, ◌∙◌, subst}
use cloud_native.TopologyAware.Outcome.{Outcome, panic, err, ok, unless_err, empty_id}
use cloud_native.TopologyAware.Request.Devices.{Text, is_empty}
use cloud_native.PcoreBinding.Topology.Distinct.{text_eq_refl}
use cloud_native.Cache.Table.{find, put, find-put}
use cloud_native.Cache.Convert.{convert_nri_linux_resources}
use cloud_native.Cache.Containers.Read.{insert_accepted}
use cloud_native.Cache.Pods.Read.{read_pod_id, nri_pod_containers}
use cloud_native.Server.Nri.Convert.{extract_cgroup_parent}
use cloud_native.Cache.Messages.{NriContainer, NriSandbox}
use cloud_native.Cache.Pods.{Pod, nri_sandbox, new_pod, read_pod, from_nri_pod_sandbox}
use cloud_native.Cache.Containers.{Container, nri_container, convert_nri_container_state}
use cloud_native.Cache.Store.{
  Cache, insert_pod, insert_container, store_container, lookup_container, lookup_pod,
}
use cloud_native.Cache.Store.View.{lookup-store_container}
use cloud_native.Cache.Store.Valid.{ok_inj}
use cloud_native.Server.HookManager.{HookManager, ContainerResourceHookResponse}
use cloud_native.Server.Nri.Adjust.{ContainerAdjustment}
use cloud_native.Server.Nri.{create_container, created_in, after_hook, after_insert, ensure_pod}

-- Every cached pod has its map of containers.
abbrev pub HaveMaps : List (Text × Pod) → Type 0
HaveMaps pods =
    (k : Text) (pod : Pod)
    → find pods k ≡ some pod
    → (m : List (Text × Text)) × (pod.containers ≡ some m)

-- The pod is cached, with its map.
abbrev IsReady : Text → Cache → Type 0
IsReady id c =
    (pod : Pod) × (find c.pods id ≡ some pod)
    × ((m : List (Text × Text)) × (pod.containers ≡ some m))

inserted-IsReady :
    (id : Text) (pod : NriSandbox) (status : Option Text) (c : Cache) {d : Cache}
    → insert_pod id (nri_sandbox pod) status c ≡ ok d
    → IsReady id d
unfolding insert_pod read_pod
inserted-IsReady id pod status c e =
    let p = from_nri_pod_sandbox pod status (new_pod id) in
    let same = read_pod_id (nri_sandbox pod) status (new_pod id) {q = p} refl in
    let stored = unless_err (is_empty id) empty_id (ok (record c { pods = put c.pods p.id p })) e in
    subst (IsReady id) (ok_inj stored) (
      p,
      find-put c.pods p.id id p ∙ rw (same, text_eq_refl id) refl,
      ([], nri_pod_containers pod status (new_pod id)),
    )

ensure_pod-IsReady :
    (o : Option Pod) (pod : NriSandbox) (c : Cache) {d : Cache}
    → lookup_pod pod.id c ≡ o
    → HaveMaps c.pods
    → ensure_pod o pod c ≡ ok d
    → IsReady pod.id d
unfolding ensure_pod lookup_pod
ensure_pod-IsReady (some known) pod c look maps e =
    subst (IsReady pod.id) (ok_inj e) (known, look, maps pod.id known look)
ensure_pod-IsReady none pod c look maps e =
    inserted-IsReady pod.id pod (some (extract_cgroup_parent pod)) c e

-- The container is cached as the message says.
abbrev pub IsCached : NriContainer → Cache → Type 0
IsCached container c =
    (o : Container) × (lookup_container container.id c ≡ some o)
    × (o.pod_id ≡ container.pod_sandbox_id)
    × (o.state ≡ convert_nri_container_state container.state)
    × (o.linux_req ≡ convert_nri_linux_resources container.linux)

inserted-IsCached :
    (container : NriContainer) (c : Cache)
    → IsReady container.pod_sandbox_id c
    → (d : Cache) × (insert_container container.id (nri_container container) c ≡ ok d)
      × IsCached container d
unfolding insert_container
inserted-IsCached container c (pod, cached, (m, map_there)) =
    let (r, read, pod_id, state, linux) =
      insert_accepted container.id container c.pods pod m cached map_there in
    (
      store_container container.id c r,
      rw read refl,
      (
        record r.1 { id = container.id },
        lookup-store_container container.id c r,
        pod_id,
        state,
        linux,
      ),
    )

module _ {S : Type 0} (manager : HookManager S) where
  after_hook-IsCached :
      (container : NriContainer) (c : Cache)
      (answer : S × Outcome (Option ContainerResourceHookResponse))
      {adjustment : Option ContainerAdjustment}
      → IsReady container.pod_sandbox_id c
      → (after_hook manager container c answer).2 ≡ ok adjustment
      → IsCached container (after_hook manager container c answer).1
  unfolding after_hook after_insert
  after_hook-IsCached container c (s, panic) v h = cc
  after_hook-IsCached container c (s, err e) v h = cc
  after_hook-IsCached container c (s, ok response) v h =
      let (d, inserted, cached) = inserted-IsCached container c v in rw inserted cached

  created_in-IsCached :
      (pod : NriSandbox) (container : NriContainer) (s : S) (c : Cache) (o : Outcome Cache)
      {adjustment : Option ContainerAdjustment}
      → ((d : Cache) → o ≡ ok d → IsReady container.pod_sandbox_id d)
      → (created_in manager pod container s c o).2 ≡ ok adjustment
      → IsCached container (created_in manager pod container s c o).1
  unfolding created_in
  created_in-IsCached pod container s c panic v h = cc
  created_in-IsCached pod container s c (err e) v h = cc
  created_in-IsCached pod container s c (ok d) v h = after_hook-IsCached container d _ (v d refl) h

  -- When CreateContainer of the NRI plugin returns without error, the container is in the cache
  -- under its id, in its pod, with the state and the Linux resources of the message, whatever the
  -- hook manager does. The container names the pod of the call, and every cached pod has its map of
  -- containers.
  pub create_container-IsCached :
      (pod : NriSandbox) (container : NriContainer) (s : S) (c : Cache)
      (adjustment : Option ContainerAdjustment)
      → container.pod_sandbox_id ≡ pod.id
      → HaveMaps c.pods
      → (create_container manager pod container (s, c)).2 ≡ ok adjustment
      → IsCached container (create_container manager pod container (s, c)).1
  unfolding create_container
  create_container-IsCached pod container s c adjustment same maps h =
      created_in-IsCached pod container s c (ensure_pod (lookup_pod pod.id c) pod c)
        (λ d e.
          subst (λ id. IsReady id d) (sym same)
            (ensure_pod-IsReady (lookup_pod pod.id c) pod c refl maps e))
        h

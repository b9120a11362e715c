-- ===== src/Cache/Containerd/Restored.antt =====
-- A running container that containerd lists is in the cache after its turn.
use cloud_native.Prelude.{ℕ, Option, none, some, arith, List, ◌≡◌, refl, ap, ◌∙◌}
use cloud_native.TopologyAware.Outcome.{ok, ◌>>=◌}
use cloud_native.TopologyAware.Request.Devices.{Text}
use cloud_native.TopologyAware.Rebuild.{ContainerState}
use cloud_native.Cache.Table.{find}
use cloud_native.Cache.Pods.{Pod}
use cloud_native.Cache.Containers.{Container, meta_id}
use cloud_native.Cache.Containers.Read.{insert_request_accepted}
use cloud_native.Cache.Store.{
  Cache, insert_container, store_container, lookup_container, lookup_pod, set_container_state,
  write_object, deref,
}
use cloud_native.Cache.Store.Valid.{get_elem?-modify}
use cloud_native.Cache.Store.View.{lookup-store_container}
use cloud_native.Cache.Containerd.{
  ListedContainer, ContainerInfo, process_container, listed_request, checkpoint_meta,
  runtime_spec_to_resource,
}

changed_at :
    (heap : List Container) (at : Option ℕ) (change : Container → Container) {o : Container}
    → deref heap at ≡ some o
    → deref (write_object at change heap) at ≡ some (change o)
unfolding deref write_object
changed_at heap none change h = cc
changed_at heap (some a) change h = get_elem?-modify heap a a change ∙ ground (arith, h)

lookup-set_container_state :
    (id : Text) (next : ContainerState) (c : Cache) {o : Container}
    → lookup_container id c ≡ some o
    → lookup_container id (set_container_state id next c) ≡ some (record o { state = next })
unfolding lookup_container set_container_state
lookup-set_container_state id next c h =
    changed_at c.heap (find c.containers id) (λ o. record o { state = next }) h

-- The container is cached as containerd has it.
abbrev pub IsRestored : ListedContainer → ContainerInfo → Cache → Type 0
IsRestored container info c =
    (o : Container) × (lookup_container container.id c ≡ some o)
    × (o.pod_id ≡ container.pod_sandbox_id)
    × (o.state ≡ container.state)
    × (o.linux_req ≡ runtime_spec_to_resource info.runtime_spec)

-- processContainer of LoadStoreContainerd succeeds for a container whose status answers and whose
-- sandbox is cached with its map of containers, and leaves the container in the cache under its id,
-- in its sandbox, in the state that containerd lists, with the resources of its runtime
-- specification.
pub process_container-IsRestored :
    (container : ListedContainer) (info : ContainerInfo) (c : Cache) (pod : Pod)
    (m : List (Text × Text))
    → lookup_pod container.pod_sandbox_id c ≡ some pod
    → pod.containers ≡ some m
    → (d : Cache) × (process_container container (some info) c ≡ ok d) × IsRestored container info d
unfolding process_container listed_request insert_container lookup_pod checkpoint_meta meta_id
process_container-IsRestored container info c pod m known map_there =
    let req = listed_request container info (lookup_pod container.pod_sandbox_id c) in
    let named : meta_id req.pod_meta ≡ container.pod_sandbox_id = rw known refl in
    let (r, read, pod_id, linux) =
      insert_request_accepted container.id req c.pods
        (record { name = container.name; id = container.id }) pod m refl
        (ap (find c.pods) named ∙ known) map_there in
    let d = store_container container.id c r in
    (
      set_container_state container.id container.state d,
      ap
          (λ o. (o >>= λ r. ok (store_container container.id c r)) >>= λ d.
            ok (set_container_state container.id container.state d))
          read,
      (
        record r.1 { id = container.id; state = container.state },
        lookup-set_container_state container.id container.state d
            (lookup-store_container container.id c r),
        pod_id ∙ named,
        refl,
        linux,
      ),
    )

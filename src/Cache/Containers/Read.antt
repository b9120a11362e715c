-- ===== src/Cache/Containers/Read.antt =====
-- What a message leaves in the container that is read from it.
use cloud_native.Prelude.{Option, none, some, List, [], ◌≡◌, refl, ap, ◌⊎◌, inl, arith}
use cloud_native.TopologyAware.Outcome.{err, ok, no_pod, >>=-eq-ok}
use cloud_native.TopologyAware.Request.Devices.{Text}
use cloud_native.Cache.Table.{find, put}
use cloud_native.TopologyAware.Rebuild.ContainerState.{creating}
use cloud_native.Cache.Messages.{NriContainer, ContainerMetadata, ContainerResourceHookRequest}
use cloud_native.Cache.Convert.{convert_nri_linux_resources}
use cloud_native.Cache.Pods.{Pod}
use cloud_native.Cache.Containers.{
  Container, ContainerMessage, create_request, container_listed, container_hook_request,
  nri_container, other_message, Reading, read_container, container_from_docker, docker_container,
  docker_with_meta, from_nri_container, nri_cached, note_in_pod, name_container, found_pod,
  from_basic_info, meta_id, new_container, keep_name, convert_nri_container_state,
}

note_in_pod-object :
    (pods : List (Text × Pod)) (pod : Pod) (c : Container) {r : Reading}
    → note_in_pod pods pod c ≡ ok r
    → r.1 ≡ c
unfolding note_in_pod
note_in_pod-object pods pod c h =
    let (named, e, e') =
      >>=-eq-ok (name_container c.name c.id pod) (λ named. ok (put pods c.pod_id named, c)) h in
    ground arith

docker_with_meta_cache_id :
    (pods : List (Text × Pod)) (req : ContainerResourceHookRequest)
    (meta : Option ContainerMetadata) {r : Reading}
    → docker_with_meta pods req meta ≡ ok r
    → r.1.cache_id ≡ []
unfolding docker_with_meta docker_container
docker_with_meta_cache_id pods req none h = ground arith
docker_with_meta_cache_id pods req (some meta) h =
    let pod_id = meta_id req.pod_meta in
    let (pod, found, read) =
      >>=-eq-ok (found_pod (find pods pod_id)) (docker_container pods req meta pod_id) h in
    ap (λ c. c.cache_id) (note_in_pod-object pods pod _ read)

from_nri_container_cache_id :
    (pods : List (Text × Pod)) (nri : NriContainer) {r : Reading}
    → from_nri_container nri pods ≡ ok r
    → r.1.cache_id ≡ []
unfolding from_nri_container nri_cached
from_nri_container_cache_id pods nri h =
    let (pod, found, read) =
      >>=-eq-ok (found_pod (find pods nri.pod_sandbox_id))
        (λ pod. note_in_pod pods pod (nri_cached nri pod)) h in
    ap (λ c. c.cache_id) (note_in_pod-object pods pod (nri_cached nri pod) read)

-- No message but an unknown one gives a container a cache id.
pub read_container_cache_id :
    (id : Text) (msg : ContainerMessage) (pods : List (Text × Pod)) {r : Reading}
    → read_container id msg pods ≡ ok r
    → (r.1.cache_id ≡ []) ⊎ (r.1.cache_id ≡ id)
unfolding read_container container_from_docker from_basic_info
read_container_cache_id id create_request pods h = ground arith
read_container_cache_id id container_listed pods h = ground arith
read_container_cache_id id (container_hook_request req) pods h =
    inl (docker_with_meta_cache_id pods req req.container_meta h)
read_container_cache_id id (nri_container nri) pods h = inl (from_nri_container_cache_id pods nri h)
read_container_cache_id id other_message pods h = ground arith

-- A hook request without the id of its pod is refused, where no pod has the empty id.
pub insert_refused :
    (id : Text) (req : ContainerResourceHookRequest) (pods : List (Text × Pod))
    (meta : ContainerMetadata)
    → req.container_meta ≡ some meta
    → find pods (meta_id req.pod_meta) ≡ none
    → read_container id (container_hook_request req) pods ≡ err no_pod
unfolding read_container container_from_docker docker_with_meta found_pod
insert_refused id req pods meta named absent = rw (named, absent) refl

-- A container that NRI reports is accepted where its pod is cached and has its map.
pub insert_accepted :
    (id : Text) (nri : NriContainer) (pods : List (Text × Pod)) (pod : Pod) (m : List (Text × Text))
    → find pods nri.pod_sandbox_id ≡ some pod
    → pod.containers ≡ some m
    → (r : Reading) × (read_container id (nri_container nri) pods ≡ ok r)
      × (r.1.pod_id ≡ nri.pod_sandbox_id)
      × (r.1.state ≡ convert_nri_container_state nri.state)
      × (r.1.linux_req ≡ convert_nri_linux_resources nri.linux)
unfolding read_container from_nri_container nri_cached note_in_pod name_container found_pod
insert_accepted id nri pods pod m cached map_there =
    let named : Pod = record pod {
      containers = some (keep_name (find m nri.name) nri.name nri.id m);
    } in
    (
      (put pods nri.pod_sandbox_id named, nri_cached nri pod),
      rw (cached, map_there) refl,
      refl,
      refl,
      refl,
    )

-- A hook request is accepted where its pod is cached and has its map.
pub insert_request_accepted :
    (id : Text) (req : ContainerResourceHookRequest) (pods : List (Text × Pod))
    (meta : ContainerMetadata) (pod : Pod) (m : List (Text × Text))
    → req.container_meta ≡ some meta
    → find pods (meta_id req.pod_meta) ≡ some pod
    → pod.containers ≡ some m
    → (r : Reading) × (read_container id (container_hook_request req) pods ≡ ok r)
      × (r.1.pod_id ≡ meta_id req.pod_meta)
      × (r.1.linux_req ≡ req.container_resources)
unfolding read_container container_from_docker docker_with_meta docker_container note_in_pod
    name_container found_pod
insert_request_accepted id req pods meta pod m named cached map_there =
    let pod_id = meta_id req.pod_meta in
    let noted : Pod = record pod {
      containers = some (keep_name (find m meta.name) meta.name meta.id m);
    } in
    (
      (
        put pods pod_id noted,
        record new_container {
          pod_id = pod_id;
          id = meta.id;
          name = meta.name;
          namespace = pod.namespace;
          state = creating;
          linux_req = req.container_resources;
        },
      ),
      rw (named, cached, map_there) refl,
      refl,
      refl,
    )

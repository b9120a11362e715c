-- ===== src/Server/Dispatcher/Agrees.antt =====
-- The cache notes of a created container what the runtime was told.
use cloud_native.Prelude.{
  Bool, true, false, Option, none, some, List, [], ◌≡◌, refl, sym, ap, ◌∙◌, subst, inl, inr,
  if◌then◌else◌, Bool-cases,
}
use cloud_native.TopologyAware.Outcome.{Outcome, panic, err, ok, ◌>>=◌}
use cloud_native.TopologyAware.Request.Devices.{Text, is_empty}
use cloud_native.Cache.Table.{find}
use cloud_native.Cache.Resources.{LinuxContainerResources}
use cloud_native.Cache.Messages.{ContainerMetadata, ContainerResourceHookRequest}
use cloud_native.Cache.Pods.{Pod}
use cloud_native.Cache.Containers.{Container, meta_id}
use cloud_native.Cache.Containers.Read.{insert_request_accepted}
use cloud_native.Cache.Store.{
  Cache, insert_container, store_container, lookup_pod, lookup_container, logged,
}
use cloud_native.Cache.Store.View.{lookup-store_container}
use cloud_native.Server.HookManager.{ContainerResourceHookResponse, HookManager}
use cloud_native.Server.Dispatcher.{
  CreateContainerRequest, Requests, Runtime, parse_cri_create_container_request, build_for,
  build_container_resource_hook_request, backfill, backfill_container_request, fill_annotations,
  fill_resources, fill_parent, fill_envs, shown, skip_tap_handle, forward, created, note_created,
  insert_if_need, intercept_parsed, intercept_create,
}
use cloud_native.Server.Dispatcher.Resources.{transfer_to_hook_resources, transfer_lem}

-- Both requests carry the same resources, and the hook request names the pod and a container.
abbrev IsAgreed : Text → Requests → Type 0
IsAgreed pod_id (proxy, hook) =
    (hook.container_resources ≡ transfer_to_hook_resources proxy.resources)
    × (meta_id hook.pod_meta ≡ pod_id)
    × ((meta : ContainerMetadata) × (hook.container_meta ≡ some meta))

fill_annotations-IsAgreed :
    (pod_id : Text) (a : Option (List (Text × Text))) (r : Requests)
    → IsAgreed pod_id r
    → IsAgreed pod_id (fill_annotations a r)
unfolding fill_annotations
fill_annotations-IsAgreed pod_id none r v = v
fill_annotations-IsAgreed pod_id (some a) r v = v

fill_resources-IsAgreed :
    (pod_id : Text) (res : Option LinuxContainerResources) (r : Requests)
    → IsAgreed pod_id r
    → IsAgreed pod_id (fill_resources res r)
unfolding fill_resources
fill_resources-IsAgreed pod_id none r v = v
fill_resources-IsAgreed pod_id (some res) r v = (sym (transfer_lem (some res)), v.1, v.2)

fill_parent-IsAgreed :
    (pod_id parent : Text) (r : Requests)
    → IsAgreed pod_id r
    → IsAgreed pod_id (fill_parent parent r)
unfolding fill_parent
fill_parent-IsAgreed pod_id parent r v = elim (Bool-cases (is_empty parent)) [
  | inl empty ↦ rw empty v
  | inr given ↦ rw given v
]

ok_requests : {q r : Requests} → ◌≡◌ {A = Outcome Requests} (ok q) (ok r) → q ≡ r
ok_requests h = cc

backfill-IsAgreed :
    (pod_id : Text) (answer : Outcome (Option ContainerResourceHookResponse)) (r : Requests)
    {q : Requests}
    → IsAgreed pod_id r
    → backfill answer r ≡ ok q
    → IsAgreed pod_id q
unfolding backfill backfill_container_request fill_envs
backfill-IsAgreed pod_id panic r v h = cc
backfill-IsAgreed pod_id (err e) r v h = subst (IsAgreed pod_id) (ok_requests h) v
backfill-IsAgreed pod_id (ok none) r v h = subst (IsAgreed pod_id) (ok_requests h) v
backfill-IsAgreed pod_id (ok (some resp)) r v h = subst (IsAgreed pod_id) (ok_requests h) (
    fill_parent-IsAgreed pod_id resp.pod_cgroup_parent _ (
      fill_resources-IsAgreed pod_id resp.container_resources _
        (fill_annotations-IsAgreed pod_id resp.container_annotations r v)))

insert_if_need_lem :
    (id : Text) (hook : ContainerResourceHookRequest) (c : Cache) (pod : Pod)
    (m : List (Text × Text)) (meta : ContainerMetadata)
    → hook.container_meta ≡ some meta
    → find c.pods (meta_id hook.pod_meta) ≡ some pod
    → pod.containers ≡ some m
    → (d : Cache) × (o : Container) × (insert_if_need id hook c ≡ ok d)
      × (lookup_container id d ≡ some o)
      × (o.linux_req ≡ hook.container_resources)
      × (o.pod_id ≡ meta_id hook.pod_meta)
unfolding insert_if_need insert_container
insert_if_need_lem id hook c pod m meta named cached map_there =
    let (r, read, pod_id, linux) =
      insert_request_accepted id hook c.pods meta pod m named cached map_there in
    (
      store_container id c r,
      record r.1 { id = id },
      ap (λ o. logged c (o >>= λ r. ok (store_container id c r))) read,
      lookup-store_container id c r,
      linux,
      pod_id,
    )

-- What is parsed agrees.
some_text : {h k : Text} → some h ≡ some k → h ≡ k
some_text e = cc

some_hook : {h k : ContainerResourceHookRequest} → some h ≡ some k → h ≡ k
some_hook e = cc

parsed-IsAgreed :
    (req : CreateContainerRequest) (hook : ContainerResourceHookRequest) (c : Cache) (pod : Pod)
    → lookup_pod req.pod_sandbox_id c ≡ some pod
    → pod.id ≡ req.pod_sandbox_id
    → parse_cri_create_container_request req c ≡ some hook
    → IsAgreed req.pod_sandbox_id (req, hook)
unfolding parse_cri_create_container_request build_for build_container_resource_hook_request meta_id
parsed-IsAgreed req hook c pod known keyed parsed =
    subst (λ hook. IsAgreed req.pod_sandbox_id (req, hook))
      (some_hook (sym (ap (build_for req) known) ∙ parsed))
      (refl, keyed, (record { name = req.name; id = [] }, refl))

module _ {S R : Type 0} (manager : HookManager S) (runtime : Runtime R) where
  -- The container is cached with the resources that the runtime was given.
  abbrev pub IsNoted : Text → CreateContainerRequest → Text → Outcome Cache → Type 0
  IsNoted pod_id proxy id outcome =
      (d : Cache) × (o : Container) × (outcome ≡ ok d)
      × (lookup_container id d ≡ some o)
      × (o.linux_req ≡ transfer_to_hook_resources proxy.resources)
      × (o.pod_id ≡ pod_id)

  shown_branch :
      (pod_id : Text) (b : Bool) (s : S) (w : S × Outcome (Option ContainerResourceHookResponse))
      (r : Requests) {q : Requests}
      → IsAgreed pod_id r
      → (if◌then◌else◌ {A = S × Outcome Requests} b (s, ok r) (w.0, backfill w.1 r)).1 ≡ ok q
      → IsAgreed pod_id q
  shown_branch pod_id true s w r v h = subst (IsAgreed pod_id) (ok_requests h) v
  shown_branch pod_id false s w r v h = backfill-IsAgreed pod_id w.1 r v h

  forward_lem :
      (w : S × Outcome Requests) (q : Requests) (c : Cache) (r : R)
      → w.1 ≡ ok q
      → (forward manager runtime w c r).2
        ≡ (created manager runtime (some q.1) c (runtime.create_container q.0 r)).1
  unfolding forward
  forward_lem (s, panic) q c r h = cc
  forward_lem (s, err e) q c r h = cc
  forward_lem (s, ok p) q c r h =
      ap (λ q. (created manager runtime (some q.1) c (runtime.create_container q.0 r)).1)
        (ok_requests h)

  created_lem :
      (hook : ContainerResourceHookRequest) (c : Cache) (answer : R × Option Text) (id : Text)
      → answer.1 ≡ some id
      → (created manager runtime (some hook) c answer).1 ≡ insert_if_need id hook c
  unfolding created note_created
  created_lem hook c (r, none) id h = cc
  created_lem hook c (r, some k) id h = ap (λ k. insert_if_need k hook c) (some_text h)

  shown-IsAgreed :
      (req : CreateContainerRequest) (hook : ContainerResourceHookRequest) (c : Cache) (s : S)
      (pod_id : Text) {q : Requests}
      → IsAgreed pod_id (req, hook)
      → (shown manager runtime req hook c s).1 ≡ ok q
      → IsAgreed pod_id q
  unfolding shown
  shown-IsAgreed req hook c s pod_id v h =
      shown_branch pod_id (skip_tap_handle req.labels) s
        (manager.pre_create_container_hook hook c s) (req, hook) v h

  -- On the CRI path the cache agrees with the runtime: where the pod of a creation is cached under
  -- its own id and with its map of containers, the hook does not panic and the runtime accepts the
  -- request that the hook left, the container is found in the cache under the id that the runtime
  -- gave, in that pod, with the very Linux resources that the runtime was sent.
  pub intercept_create-IsNoted :
      (req proxy : CreateContainerRequest) (hook hook' : ContainerResourceHookRequest) (s : S)
      (r : R) (c : Cache) (pod : Pod) (m : List (Text × Text)) (id : Text)
      → lookup_pod req.pod_sandbox_id c ≡ some pod
      → pod.id ≡ req.pod_sandbox_id
      → pod.containers ≡ some m
      → parse_cri_create_container_request req c ≡ some hook
      → (shown manager runtime req hook c s).1 ≡ ok (proxy, hook')
      → (runtime.create_container proxy r).1 ≡ some id
      → IsNoted req.pod_sandbox_id proxy id (intercept_create manager runtime req (s, r, c)).2
  unfolding intercept_create intercept_parsed lookup_pod
  intercept_create-IsNoted req proxy hook hook' s r c pod m id known keyed map_there parsed told
        accepted =
      let agreed = parsed-IsAgreed req hook c pod known keyed parsed in
      let (resources, at_pod, (meta, named)) =
        shown-IsAgreed req hook c s req.pod_sandbox_id agreed told in
      let cached : find c.pods (meta_id hook'.pod_meta) ≡ some pod =
        ap (find c.pods) at_pod ∙ known in
      let (d, o, noted, found, linux, pod_id) =
        insert_if_need_lem id hook' c pod m meta named cached map_there in
      (
        d,
        o,
        ap (λ h. (intercept_parsed manager runtime req h (s, r, c)).2) parsed
            ∙ (forward_lem (shown manager runtime req hook c s) (proxy, hook') c r told
                ∙ (created_lem hook' c (runtime.create_container proxy r) id accepted ∙ noted)),
        found,
        linux ∙ resources,
        pod_id ∙ at_pod,
      )

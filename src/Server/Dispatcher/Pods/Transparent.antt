-- ===== src/Server/Dispatcher/Pods/Transparent.antt =====
-- With the policy manager behind it, the dispatcher lets the sandboxes of pods pass as they are, and
-- notes them in the cache.
use cloud_native.Prelude.{false, Option, none, some, [], ◌≡◌, refl, ap, ◌∙◌, Bool-cases, inl, inr}
use cloud_native.TopologyAware.Outcome.{ok}
use cloud_native.TopologyAware.Request.Devices.{Text, is_empty}
use cloud_native.TopologyAware.Filter.{text_eq}
use cloud_native.PcoreBinding.Topology.Distinct.{text_eq_refl}
use cloud_native.Cache.Table.{put, find-put}
use cloud_native.Cache.Pods.{Pod, new_pod, ready, pod_hook_request}
use cloud_native.Cache.Pods.Read.{read_request}
use cloud_native.Cache.Store.{Cache, insert_pod, lookup_pod, logged}
use cloud_native.Server.Dispatcher.{skip_tap_handle}
use cloud_native.Server.Dispatcher.Pods.{
  PodLinux, RunPodSandboxRequest, parse_pod_request, parent_of, linux_or_new, backfill_pod_request,
  backfill_pod, fill_pod_annotations, fill_pod_labels, fill_pod_parent, fill_pod_resources,
  shown_pod, noted_pod, forward_pod, intercept_run_pod, pre_run_pod_sandbox_hook,
}

same_parent :
    (linux : Option PodLinux)
    → is_empty (parent_of linux) ≡ false
    → some (record (linux_or_new linux) { cgroup_parent = parent_of linux }) ≡ linux
unfolding parent_of linux_or_new
same_parent none h = cc
same_parent (some linux) h = refl

fill_pod_parent_same :
    (req : RunPodSandboxRequest)
    → fill_pod_parent (parent_of req.linux) (req, parse_pod_request req)
      ≡ (req, parse_pod_request req)
unfolding fill_pod_parent parse_pod_request
fill_pod_parent_same req = elim (Bool-cases (is_empty (parent_of req.linux))) [
  | inl empty ↦ rw empty refl
  | inr given ↦
      rw given
        (ap (λ l. (record req { linux = l }, parse_pod_request req)) (same_parent req.linux given))
]

-- The pod is cached as the request has it.
abbrev pub IsCachedPod : RunPodSandboxRequest → Text → Cache → Type 0
IsCachedPod req id c =
    (p : Pod) × (lookup_pod id c ≡ some p)
    × (p.name ≡ req.name)
    × (p.namespace ≡ req.namespace)
    × (p.uid ≡ req.uid)
    × (p.labels ≡ req.labels)
    × (p.annotations ≡ req.annotations)
    × (p.cgroup_parent ≡ parent_of req.linux)
    × (p.containers ≡ some [])

-- The other pods are as they were.
abbrev pub AreKept : Text → Cache → Cache → Type 0
AreKept id c d = (k : Text) → text_eq id k ≡ false → lookup_pod k d ≡ lookup_pod k c

inserted-IsCachedPod :
    (req : RunPodSandboxRequest) (id : Text) (c : Cache)
    → is_empty id ≡ false
    → (d : Cache) × (logged c (insert_pod id (pod_hook_request (parse_pod_request req)) none c)
        ≡ ok d)
      × IsCachedPod req id d
      × AreKept id c d
unfolding insert_pod lookup_pod parse_pod_request
inserted-IsCachedPod req id c named =
    let info = parse_pod_request req in
    let (qos, read) =
      read_request info
        (record { name = req.name; uid = req.uid; namespace = req.namespace; id = [] }) none
        (new_pod id) refl in
    let p : Pod = record (new_pod id) {
      uid = req.uid;
      name = req.name;
      namespace = req.namespace;
      labels = req.labels;
      annotations = req.annotations;
      state = ready;
      cgroup_parent = parent_of req.linux;
      containers = some [];
      qos_class = qos;
    } in
    (
      record c { pods = put c.pods id p },
      rw (named, read) refl,
      (
        p,
        find-put c.pods id id p ∙ rw (text_eq_refl id) refl,
        refl,
        refl,
        refl,
        refl,
        refl,
        refl,
        refl,
      ),
      λ k other. find-put c.pods id k p ∙ rw other refl,
    )

noted_pod_lem :
    {R : Type 0} (req : RunPodSandboxRequest) (c : Cache) (answer : R × Option Text) (id : Text)
    → answer.1 ≡ some id
    → noted_pod (parse_pod_request req) c answer
      ≡ (answer.0, logged c (insert_pod id (pod_hook_request (parse_pod_request req)) none c))
unfolding noted_pod
noted_pod_lem req c (r, none) id h = cc
noted_pod_lem req c (r, some k) id h =
    let same : k ≡ id = cc in
    ap (λ k. (r, logged c (insert_pod k (pod_hook_request (parse_pod_request req)) none c))) same

module _ {S R : Type 0} (run : RunPodSandboxRequest → R → R × Option Text) where
  shown_pod_same :
      (req : RunPodSandboxRequest) (s : S)
      → shown_pod {R = R} pre_run_pod_sandbox_hook run req s ≡ (s, ok (req, parse_pod_request req))
  unfolding shown_pod pre_run_pod_sandbox_hook backfill_pod backfill_pod_request
      fill_pod_annotations fill_pod_labels fill_pod_resources parse_pod_request
  shown_pod_same req s = elim (Bool-cases (skip_tap_handle req.labels)) [
    | inl skipped ↦ rw skipped refl
    | inr asked ↦ rw asked (ap (λ r. (s, ok r)) (fill_pod_parent_same req))
  ]

  -- On the CRI path with the policy manager behind it, the creation of a pod's sandbox passes as it
  -- is: the runtime is asked once, with the request of the kubelet itself, and when it answers an
  -- id that is not empty the pod is in the cache under that id with the metadata, labels,
  -- annotations and cgroup parent of the request and an empty map of containers; the other pods are
  -- as they were.
  pub intercept_run_pod-IsCachedPod :
      (req : RunPodSandboxRequest) (s : S) (r : R) (c : Cache) (id : Text)
      → (run req r).1 ≡ some id
      → is_empty id ≡ false
      → (d : Cache) × (intercept_run_pod pre_run_pod_sandbox_hook run req (s, r, c)
          ≡ (s, (run req r).0, ok d))
        × IsCachedPod req id d
        × AreKept id c d
  unfolding intercept_run_pod forward_pod noted_pod
  intercept_run_pod-IsCachedPod req s r c id answer named =
      let (d, inserted, cached, kept) = inserted-IsCachedPod req id c named in
      (
        d,
        ap (λ w. forward_pod pre_run_pod_sandbox_hook run w c r) (shown_pod_same req s)
            ∙ ap (λ w. (s, w.0, w.1))
                (noted_pod_lem req c (run req r) id answer ∙ ap (λ o. ((run req r).0, o)) inserted),
        cached,
        kept,
      )

-- ===== src/Cache/Pods/Read.antt =====
-- Reading a message keeps the pod's id.
use cloud_native.Prelude.{Option, none, some, [], ◌≡◌, refl, ap, ◌∙◌, arith, inl, inr, Bool-cases}
use cloud_native.TopologyAware.Outcome.{Outcome, ok}
use cloud_native.TopologyAware.Request.Devices.{Text, is_empty, split}
use cloud_native.TopologyAware.Hooks.{QosClass}
use cloud_native.Cache.Resources.{trim_slash}
use cloud_native.Cache.Messages.{
  PodSandboxMetadata, PodSandboxHookRequest, NriLinuxSandbox, NriSandbox,
}
use cloud_native.Cache.Pods.{
  Pod, PodMessage, run_request, pod_listed, pod_hook_request, nri_sandbox, other_pod_message, ready,
  read_pod, discover_qos_class, with_class, skip_root, with_meta, finish_docker, pod_from_docker,
  with_linux, with_status, from_nri_pod_sandbox,
}

with_class_id : (qos : Option QosClass) (p : Pod) → (with_class qos p).id ≡ p.id
unfolding with_class
with_class_id none p = refl
with_class_id (some qos) p = refl

discover_qos_class_id : (p : Pod) → (discover_qos_class p).id ≡ p.id
unfolding discover_qos_class
discover_qos_class_id p = elim (Bool-cases (is_empty p.cgroup_parent)) [
  | inl empty ↦ rw empty refl
  | inr path ↦ rw path (with_class_id (skip_root (split 47 (trim_slash p.cgroup_parent))) p)
]

with_linux_id : (linux : Option NriLinuxSandbox) (p : Pod) → (with_linux linux p).id ≡ p.id
unfolding with_linux
with_linux_id none p = refl
with_linux_id (some linux) p = refl

with_status_id : (status : Option Text) (p : Pod) → (with_status status p).id ≡ p.id
unfolding with_status
with_status_id none p = refl
with_status_id (some parent) p = ground arith

pod_id_ok : {p q : Pod} → ◌≡◌ {A = Outcome Pod} (ok p) (ok q) → q.id ≡ p.id
pod_id_ok h = cc

pod_from_docker_id :
    (info : PodSandboxHookRequest) (meta : Option PodSandboxMetadata) (p : Pod) {q : Pod}
    → finish_docker info (with_meta meta p) ≡ ok q
    → q.id ≡ p.id
unfolding finish_docker with_meta
pod_from_docker_id info none p h = cc
pod_from_docker_id info (some meta) p h = pod_id_ok h ∙ discover_qos_class_id _

pub read_pod_id :
    (msg : PodMessage) (status : Option Text) (p : Pod) {q : Pod}
    → read_pod msg status p ≡ ok q
    → q.id ≡ p.id
unfolding read_pod pod_from_docker from_nri_pod_sandbox
read_pod_id run_request status p h = pod_id_ok h
read_pod_id pod_listed status p h = pod_id_ok h
read_pod_id (pod_hook_request info) status p h = pod_from_docker_id info info.pod_meta _ h
read_pod_id (nri_sandbox pod) status p h =
    pod_id_ok h ∙ (discover_qos_class_id _ ∙ (with_status_id status _ ∙ with_linux_id pod.linux _))
read_pod_id other_pod_message status p h = cc

with_class_containers :
    (qos : Option QosClass) (p : Pod) → (with_class qos p).containers ≡ p.containers
unfolding with_class
with_class_containers none p = refl
with_class_containers (some qos) p = refl

discover_qos_class_containers : (p : Pod) → (discover_qos_class p).containers ≡ p.containers
unfolding discover_qos_class
discover_qos_class_containers p = elim (Bool-cases (is_empty p.cgroup_parent)) [
  | inl empty ↦ rw empty refl
  | inr path ↦ rw path (with_class_containers (skip_root (split 47 (trim_slash p.cgroup_parent))) p)
]

with_linux_containers :
    (linux : Option NriLinuxSandbox) (p : Pod) → (with_linux linux p).containers ≡ p.containers
unfolding with_linux
with_linux_containers none p = refl
with_linux_containers (some linux) p = refl

with_status_containers :
    (status : Option Text) (p : Pod) → (with_status status p).containers ≡ p.containers
unfolding with_status
with_status_containers none p = refl
with_status_containers (some parent) p = ground arith

-- A pod that NRI reports has an empty map of containers.
pub nri_pod_containers :
    (pod : NriSandbox) (status : Option Text) (p : Pod)
    → (from_nri_pod_sandbox pod status p).containers ≡ some []
unfolding from_nri_pod_sandbox
nri_pod_containers pod status p =
    discover_qos_class_containers _
    ∙ (with_status_containers status _ ∙ with_linux_containers pod.linux _)

with_class_lem :
    (qos : Option QosClass) (p : Pod)
    → with_class qos p ≡ record p { qos_class = (with_class qos p).qos_class }
unfolding with_class
with_class_lem none p = refl
with_class_lem (some qos) p = refl

-- Nothing but the class is set.
discover_qos_class_lem :
    (p : Pod) → discover_qos_class p ≡ record p { qos_class = (discover_qos_class p).qos_class }
unfolding discover_qos_class
discover_qos_class_lem p = elim (Bool-cases (is_empty p.cgroup_parent)) [
  | inl empty ↦ rw empty refl
  | inr path ↦ rw path (with_class_lem (skip_root (split 47 (trim_slash p.cgroup_parent))) p)
]

-- What a hook request leaves in a new pod
pub read_request :
    (info : PodSandboxHookRequest) (meta : PodSandboxMetadata) (status : Option Text) (p : Pod)
    → info.pod_meta ≡ some meta
    → (qos : QosClass) × (read_pod (pod_hook_request info) status p
        ≡ ok (record p {
          uid = meta.uid;
          name = meta.name;
          namespace = meta.namespace;
          labels = info.labels;
          annotations = info.annotations;
          state = ready;
          cgroup_parent = info.cgroup_parent;
          linux_req = info.resources;
          containers = some [];
          qos_class = qos;
        }))
unfolding read_pod pod_from_docker finish_docker with_meta
read_request info meta status p named =
    let q = record p {
      uid = meta.uid;
      name = meta.name;
      namespace = meta.namespace;
      labels = info.labels;
      annotations = info.annotations;
      state = ready;
      cgroup_parent = info.cgroup_parent;
      linux_req = info.resources;
      containers = some [];
    } in
    ((discover_qos_class q).qos_class, rw named (ap (λ q. ok q) (discover_qos_class_lem q)))

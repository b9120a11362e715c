-- ===== src/Cache/Refresh/Deadlock.antt =====
-- RefreshPods and RefreshContainers return only where there is nothing to do.
use cloud_native.Prelude.{
  ℕ, Bool, true, ◌&&◌, ◌||◌, not, List, [], ◌∷◌, ◌≡◌, refl, inl, inr, arith, if◌then◌else◌,
  get_elem?, Bool-cases,
}
use cloud_native.TopologyAware.Request.Devices.{Text, is_empty}
use cloud_native.TopologyAware.Rebuild.{ContainerState}
use cloud_native.PcoreBinding.Topology.{has_text}
use cloud_native.Cache.Table.{find}
use cloud_native.Cache.Pods.{Pod}
use cloud_native.Cache.Containers.{Container}
use cloud_native.Cache.Store.{Cache}
use cloud_native.Cache.Refresh.{
  blocked, done, Refreshed, start, is_found, is_purged, locked_insert_pod, inserted, insert_pods,
  purge_pods, purge_containers, refresh_pods, valid_ids, insert_containers, refresh_containers,
}

-- All listed ids are cached.
abbrev pub all_found : {A : Type 0} → List Text → List (Text × A) → Bool
all_found [] m = true
all_found (id ∷ ids) m = is_found (find m id) && all_found ids m

-- All listed ids are cached, but for those that InsertPod refuses.
abbrev pub all_known : List Text → List (Text × Pod) → Bool
all_known [] m = true
all_known (id ∷ ids) m = (is_found (find m id) || is_empty id) && all_known ids m

-- All cached pods are listed.
abbrev pub all_listed : List Text → List (Text × Pod) → Bool
all_listed valid [] = true
all_listed valid ((key, p) ∷ pods) = has_text valid p.id && all_listed valid pods

-- No cached container is purged.
abbrev pub none_purged : (Container → Text) → List Text → List (Text × ℕ) → List Container → Bool
none_purged field valid [] heap = true
none_purged field valid ((key, a) ∷ m) heap =
    not (is_purged field valid (get_elem? heap a)) && none_purged field valid m heap

insert_pods_lem :
    (ids : List Text) (r : Refreshed)
    → insert_pods ids r ≡ (if all_known ids r.cache.pods then done r else blocked)
unfolding insert_pods locked_insert_pod inserted
insert_pods_lem [] r = refl
insert_pods_lem (id ∷ ids) r = ground (arith, insert_pods_lem ids r)

purge_pods_lem :
    (valid : List Text) (pods : List (Text × Pod)) (r : Refreshed)
    → purge_pods valid pods r ≡ (if all_listed valid pods then done r else blocked)
unfolding purge_pods
purge_pods_lem valid [] r = refl
purge_pods_lem valid ((key, p) ∷ pods) r = ground (arith, purge_pods_lem valid pods r)

purge_containers_lem :
    (field : Container → Text) (valid : List Text) (m : List (Text × ℕ)) (r : Refreshed)
    → purge_containers field valid m r
      ≡ (if none_purged field valid m r.cache.heap then done r else blocked)
unfolding purge_containers
purge_containers_lem field valid [] r = refl
purge_containers_lem field valid ((key, a) ∷ m) r =
    ground (arith, purge_containers_lem field valid m r)

insert_containers_lem :
    (ids : List Text) (r : Refreshed)
    → insert_containers ids r ≡ (if all_found ids r.cache.containers then done r else blocked)
unfolding insert_containers
insert_containers_lem [] r = refl
insert_containers_lem (id ∷ ids) r = ground (arith, insert_containers_lem ids r)

-- RefreshPods returns, with the cache as it was and nothing added or deleted, exactly when every
-- listed pod is cached or has the empty id (which InsertPod refuses before it takes the mutex),
-- every cached pod is listed, and every cached container is of a listed pod; in all other cases it
-- waits for ever on the mutex that it holds.
pub refresh_pods_lem :
    (ids : List Text) (c : Cache)
    → refresh_pods ids c ≡ (
        if all_known ids c.pods
          && (all_listed ids c.pods && none_purged (λ o. o.pod_id) ids c.containers c.heap)
        then done (start c)
        else blocked)
unfolding refresh_pods
refresh_pods_lem ids c =
    rw (insert_pods_lem ids (start c)) (elim (Bool-cases (all_known ids c.pods)) [
      | inl found ↦
          rw (found, purge_pods_lem ids c.pods (start c))
            (elim (Bool-cases (all_listed ids c.pods)) [
              | inl listed ↦
                  rw (listed, purge_containers_lem (λ o. o.pod_id) ids c.containers (start c)) refl
              | inr unlisted ↦ rw unlisted refl
            ])
      | inr missing ↦ rw missing refl
    ])

pub refresh_containers_lem :
    (listed : List (Text × ContainerState)) (c : Cache)
    → refresh_containers listed c ≡ (
        if all_found (valid_ids listed) c.containers
          && none_purged (λ o. o.id) (valid_ids listed) c.containers c.heap
        then done (start c)
        else blocked)
unfolding refresh_containers
refresh_containers_lem listed c =
    rw (insert_containers_lem (valid_ids listed) (start c))
      (elim (Bool-cases (all_found (valid_ids listed) c.containers)) [
        | inl found ↦
            rw (found, purge_containers_lem (λ o. o.id) (valid_ids listed) c.containers (start c))
              refl
        | inr missing ↦ rw missing refl
      ])

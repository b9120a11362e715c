-- ===== src/Cache/Refresh.antt =====
-- RefreshPods and RefreshContainers of cache.go. They hold the cache's mutex, which is not
-- reentrant, while they call methods that lock it.
pub mod Deadlock
use cloud_native.Prelude.{
  ℕ, Bool, true, false, not, Option, none, some, List, [], ◌∷◌, if◌then◌else◌, get_elem?,
}
use cloud_native.TopologyAware.Outcome.{Outcome, panic, err, ok, empty_id}
use cloud_native.TopologyAware.Request.Devices.{Text, is_empty}
use cloud_native.TopologyAware.Filter.{text_eq}
use cloud_native.TopologyAware.Rebuild.{ContainerState}
use cloud_native.TopologyAware.Rebuild.ContainerState.{
  created, running, exited, unknown, creating, stale,
}
use cloud_native.PcoreBinding.Topology.{has_text}
use cloud_native.Cache.Table.{find}
use cloud_native.Cache.Pods.{Pod, pod_listed}
use cloud_native.Cache.Containers.{Container, container_listed}
use cloud_native.Cache.Store.{
  Cache, insert_pod, delete_pod, insert_container, delete_container, write_object,
}

-- The outcome of a call that takes a mutex: it waits for ever, or it returns.
pub data Locked (A : Type 0) : Type 0 where
  blocked : Locked A
  done : A → Locked A

infixl 5 ◌>>=◌
abbrev pub ◌>>=◌ : {A B : Type 0} → Locked A → (A → Locked B) → Locked B
blocked >>= next = blocked
done a >>= next = next a

-- `Lock()` by a goroutine while the mutex is held, by that goroutine itself, or free
abbrev pub with_lock : {A : Type 0} → Bool → A → Locked A
with_lock true a = blocked
with_lock false a = done a

-- The cache, the ids added, the pods deleted, and the containers deleted
pub record Refreshed : Type 0 where
  pub cache : Cache
  pub added : List Text
  pub deleted : List Text
  pub purged : List Text

abbrev pub start : Cache → Refreshed
start c = record { cache = c; added = []; deleted = []; purged = [] }

-- An insertion that fails is logged.
inserted : Text → Outcome Cache → Refreshed → Refreshed
inserted id panic r = r
inserted id (err e) r = r
inserted id (ok d) r = record r { cache = d; added = id ∷ r.added }

abbrev pub is_found : {A : Type 0} → Option A → Bool
is_found none = false
is_found (some a) = true

-- InsertPod of a listed pod: an empty id is refused before the mutex is taken.
unfoldable pub locked_insert_pod : Bool → Text → Cache → Locked (Outcome Cache)
unfolding insert_pod
locked_insert_pod held id c =
    if is_empty id then done (err empty_id) else with_lock held (insert_pod id pod_listed none c)

-- The loop over the listed pods, with the mutex held
unfoldable pub insert_pods : List Text → Refreshed → Locked Refreshed
unfolding inserted locked_insert_pod
insert_pods [] r = done r
insert_pods (id ∷ ids) r =
    let rest = insert_pods ids r in
    if is_found (find r.cache.pods id)
    then rest
    else locked_insert_pod true id r.cache >>= λ o. insert_pods ids (inserted id o r)

unfoldable pub purge_pods : List Text → List (Text × Pod) → Refreshed → Locked Refreshed
unfolding delete_pod
purge_pods valid [] r = done r
purge_pods valid ((key, p) ∷ pods) r =
    let rest = purge_pods valid pods r in
    if has_text valid p.id
    then rest
    else with_lock true (delete_pod p.id r.cache) >>= λ c.
        purge_pods valid pods (record r { cache = c; deleted = p.id ∷ r.deleted })

-- A container whose id, or whose pod's id, is not listed
unfoldable pub is_purged : (Container → Text) → List Text → Option Container → Bool
is_purged field valid none = false
is_purged field valid (some o) = not (has_text valid (field o))

cache_id_at : Option Container → Text
cache_id_at none = []
cache_id_at (some o) = o.cache_id

-- The deleted container is marked stale, and listed under its cache id.
purged_at : Text → ℕ → Cache → Refreshed → Refreshed
unfolding write_object cache_id_at
purged_at key a c r = record r {
  cache = record c { heap = write_object (some a) (λ o. record o { state = stale }) c.heap };
  purged = if text_eq key (cache_id_at (get_elem? c.heap a)) then key ∷ r.purged else r.purged;
}

unfoldable pub purge_containers :
    (Container → Text) → List Text → List (Text × ℕ) → Refreshed → Locked Refreshed
unfolding is_purged delete_container purged_at cache_id_at
purge_containers field valid [] r = done r
purge_containers field valid ((key, a) ∷ m) r =
    let rest = purge_containers field valid m r in
    if not (is_purged field valid (get_elem? r.cache.heap a))
    then rest
    else with_lock true (delete_container (cache_id_at (get_elem? r.cache.heap a)) r.cache) >>= λ c.
        purge_containers field valid m (purged_at key a c r)

-- `ids` are those of the listed pods. The mutex is free at the call.
unfoldable pub refresh_pods : List Text → Cache → Locked Refreshed
unfolding insert_pods purge_pods purge_containers
refresh_pods ids c =
    with_lock false (start c) >>= insert_pods ids >>= (λ r. purge_pods ids r.cache.pods r) >>= λ r.
    purge_containers (λ o. o.pod_id) ids r.cache.containers r

abbrev is_exited : ContainerState → Bool
is_exited exited = true
is_exited created = false
is_exited running = false
is_exited unknown = false
is_exited creating = false
is_exited stale = false

-- The listed containers that have not exited
unfoldable pub valid_ids : List (Text × ContainerState) → List Text
valid_ids [] = []
valid_ids ((id, state) ∷ listed) =
    let rest = valid_ids listed in if is_exited state then rest else id ∷ rest

unfoldable pub insert_containers : List Text → Refreshed → Locked Refreshed
unfolding inserted insert_container
insert_containers [] r = done r
insert_containers (id ∷ ids) r =
    let rest = insert_containers ids r in
    if is_found (find r.cache.containers id)
    then rest
    else with_lock true (insert_container id container_listed r.cache) >>= λ o.
        insert_containers ids (inserted id o r)

unfoldable pub refresh_containers : List (Text × ContainerState) → Cache → Locked Refreshed
unfolding valid_ids insert_containers purge_containers
refresh_containers listed c =
    with_lock false (start c) >>= insert_containers (valid_ids listed) >>= λ r.
    purge_containers (λ o. o.id) (valid_ids listed) r.cache.containers r

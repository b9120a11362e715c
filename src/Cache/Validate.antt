-- ===== src/Cache/Validate.antt =====
-- The listings of the cache, and the search for containers that the runtime no longer has
-- (ValidateCachedContainers and CleanupStaleContainers of utils.go).
pub mod Clean
pub mod Listed
use cloud_native.Prelude.{
  ℕ, suc, Bool, true, false, ◌||◌, not, Option, none, some, List, [], ◌∷◌, length, if◌then◌else◌,
  get_elem?,
}
use cloud_native.TopologyAware.Request.Devices.{Text}
use cloud_native.TopologyAware.Filter.{text_eq}
use cloud_native.PcoreBinding.Topology.{has_text}
use cloud_native.Cache.Pods.{Pod, has_prefix}
use cloud_native.Cache.Containers.{Container}
use cloud_native.Cache.Store.{Cache, delete_container}

pods_in : List (Text × Pod) → List Pod
pods_in [] = []
pods_in ((id, p) ∷ pods) = p ∷ pods_in pods

-- The order of the listings is that of a Go map, so any.
unfoldable pub get_pods : Cache → List Pod
unfolding pods_in
get_pods c = pods_in c.pods

cons_object : Option Container → List Container → List Container
cons_object none rest = rest
cons_object (some o) rest = o ∷ rest

objects_in : List (Text × ℕ) → List Container → List Container
unfolding cons_object
objects_in [] heap = []
objects_in ((id, a) ∷ m) heap = cons_object (get_elem? heap a) (objects_in m heap)

unfoldable pub get_containers : Cache → List Container
unfolding objects_in
get_containers c = objects_in c.containers c.heap

-- The ids of the entries whose key is, or is not, the cache id of the object
keys_where : Bool → Text → Option Container → List Text → List Text
keys_where same key none rest = rest
keys_where true key (some o) rest = if text_eq key o.cache_id then o.cache_id ∷ rest else rest
keys_where false key (some o) rest = if text_eq key o.cache_id then rest else o.id ∷ rest

keys_in : Bool → List (Text × ℕ) → List Container → List Text
unfolding keys_where
keys_in same [] heap = []
keys_in same ((key, a) ∷ m) heap = keys_where same key (get_elem? heap a) (keys_in same m heap)

unfoldable pub get_container_cache_ids : Cache → List Text
unfolding keys_in
get_container_cache_ids c = keys_in true c.containers c.heap

unfoldable pub get_container_ids : Cache → List Text
unfolding keys_in
get_container_ids c = keys_in false c.containers c.heap

-- Some listed id is a prefix of `id`, or `id` of it.
unfoldable pub has_prefix_match : List Text → Text → Bool
unfolding has_prefix
has_prefix_match [] id = false
has_prefix_match (running ∷ ids) id =
    has_prefix running id || has_prefix id running || has_prefix_match ids id

-- `found` of the loop
unfoldable pub is_known : List Text → Text → Bool
unfolding has_prefix_match
is_known ids id = has_text ids id || has_prefix_match ids id

cons_stale : List Text → Option Container → List Text → List Text
unfolding is_known
cons_stale ids none rest = rest
cons_stale ids (some o) rest = if is_known ids o.id then rest else o.id ∷ rest

unfoldable pub stale_in : List Text → List (Text × ℕ) → List Container → List Text
unfolding cons_stale
stale_in ids [] heap = []
stale_in ids ((key, a) ∷ m) heap = cons_stale ids (get_elem? heap a) (stale_in ids m heap)

unfoldable pub validate_cached_containers : List Text → Cache → List Text
unfolding stale_in
validate_cached_containers ids c = stale_in ids c.containers c.heap

-- The count that is returned is that of the ids, whether they were cached or not.
unfoldable pub cleanup_stale_containers : List Text → Cache → ℕ × Cache
unfolding delete_container
cleanup_stale_containers [] c = (0, c)
cleanup_stale_containers (id ∷ ids) c =
    let (count, d) = cleanup_stale_containers ids (delete_container id c) in (suc count, d)

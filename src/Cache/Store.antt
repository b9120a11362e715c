-- ===== src/Cache/Store.antt =====
-- cache.go: the tables of pods and containers. A container is an object that the table points to,
-- and two keys may point to one object, so the objects stand in a heap and the table has addresses.
pub mod Valid
pub mod View
pub mod Refine
use cloud_native.Prelude.{
  ℕ, zero, suc, Option, none, some, List, [], ◌∷◌, ◌++◌, length, get_elem?, set, if◌then◌else◌,
}
use cloud_native.TopologyAware.Outcome.{
  Outcome, panic, err, ok, ◌>>=◌, unknown_message, empty_id, no_container,
}
use cloud_native.TopologyAware.Request.Devices.{Text, is_empty}
use cloud_native.TopologyAware.Rebuild.{ContainerState}
use cloud_native.Cache.Table.{find, put, erase}
use cloud_native.Cache.Pods.{Pod, new_pod, PodMessage, read_pod}
use cloud_native.Cache.Containers.{Container, ContainerMessage, Reading, read_container}

-- `heap` are the containers ever made; `pending` are the cache ids with pending changes. (The file
-- paths and the CPU information are not read by the operations here.)
pub record Cache : Type 0 where
  pub pods : List (Text × Pod)
  pub containers : List (Text × ℕ)
  pub heap : List Container
  pub next_id : ℕ
  pub pending : List Text

-- The maps of NewCache
abbrev pub new_cache : Cache
new_cache = record { pods = []; containers = []; heap = []; next_id = 1; pending = [] }

unfoldable pub insert_pod : Text → PodMessage → Option Text → Cache → Outcome Cache
insert_pod id msg status c =
    if is_empty id
    then err empty_id
    else read_pod msg status (new_pod id) >>= λ p. ok (record c { pods = put c.pods p.id p })

-- The pod is returned too where there was one.
unfoldable pub delete_pod : Text → Cache → Cache
delete_pod id c = record c { pods = erase c.pods id }

unfoldable pub lookup_pod : Text → Cache → Option Pod
lookup_pod id c = find c.pods id

-- The object at an address, which is absent for no pointer.
unfoldable pub deref : List Container → Option ℕ → Option Container
deref heap none = none
deref heap (some address) = get_elem? heap address

unfoldable pub lookup_container : Text → Cache → Option Container
lookup_container id c = deref c.heap (find c.containers id)

-- The new container is put at a fresh address.
unfoldable pub store_container : Text → Cache → Reading → Cache
store_container id c (pods, o) = record c {
  pods = pods;
  heap = c.heap ++ record o { id = id } ∷ [];
  containers = put c.containers id (length c.heap);
}

unfoldable pub insert_container : Text → ContainerMessage → Cache → Outcome Cache
unfolding store_container
insert_container id msg c = read_container id msg c.pods >>= λ r. ok (store_container id c r)

-- A write to the object at an address
unfoldable pub modify : List Container → ℕ → (Container → Container) → List Container
modify [] address change = []
modify (o ∷ heap) zero change = change o ∷ heap
modify (o ∷ heap) (suc address) change = o ∷ modify heap address change

-- A write through a pointer
unfoldable pub write_object : Option ℕ → (Container → Container) → List Container → List Container
unfolding modify
write_object none change heap = heap
write_object (some address) change heap = modify heap address change

-- `reply` is the ContainerId of a CreateContainerResponse, and absent in another message.
unfoldable pub update_container_id : Text → Option Text → Cache → Outcome Cache
unfolding write_object
update_container_id cache_id reply c = elim (find c.containers cache_id) [
  | none ↦ err no_container
  | some address ↦ elim reply [
    | none ↦ err unknown_message
    | some id ↦ ok (record c {
      heap = write_object (some address) (λ o. record o { id = id }) c.heap;
      containers = put c.containers id address;
    })
  ]
]

erase_keys : Option Container → List (Text × ℕ) → List (Text × ℕ)
erase_keys none containers = containers
erase_keys (some o) containers = erase (erase containers o.id) o.cache_id

-- The container is returned too where there was one.
unfoldable pub delete_container : Text → Cache → Cache
unfolding erase_keys
delete_container id c = record c { containers = erase_keys (lookup_container id c) c.containers }

unfoldable pub set_container_state : Text → ContainerState → Cache → Cache
unfolding write_object
set_container_state id state c = record c {
  heap = write_object (find c.containers id) (λ o. record o { state = state }) c.heap;
}

-- What an insertion leaves when its error is only logged.
abbrev pub logged : Cache → Outcome Cache → Outcome Cache
logged c panic = panic
logged c (err e) = ok c
logged c (ok d) = ok d

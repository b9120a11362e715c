-- ===== src/Cache/Setters.antt =====
-- The setters of container.go and the marks of pending changes. A container is changed through its
-- address.
pub mod Range
use cloud_native.Prelude.{
  ℕ, ◌-◌, ◌^◌, Bool, true, false, ◌||◌, Option, none, some, List, [], ◌∷◌, get_elem?, if◌then◌else◌,
}
use cloud_native.Word64.{is_neg, slt}
use cloud_native.TopologyAware.Request.Devices.{Text, codes}
use cloud_native.TopologyAware.Filter.{text_eq}
use cloud_native.PcoreBinding.Topology.{has_text}
use cloud_native.Cache.Resources.{LinuxContainerResources, no_resources}
use cloud_native.Cache.Containers.{Container}
use cloud_native.Cache.Store.{Cache, write_object, lookup_container}

-- `set[key] = struct{}{}`
unfoldable pub add_key : Text → List Text → List Text
add_key key keys = if has_text keys key then keys else key ∷ keys

-- `delete(set, key)`
unfoldable pub remove_key : Text → List Text → List Text
remove_key key [] = []
remove_key key (k ∷ keys) =
    let rest = remove_key key keys in if text_eq k key then rest else k ∷ rest

-- The controllers' names
abbrev cri : Text
cri = codes "cri"

cache_id_of : Option Container → List Text → List Text
unfolding add_key
cache_id_of none pending = pending
cache_id_of (some o) pending = add_key o.cache_id pending

-- markPending of `container`, for the controller "cri", with that of `cache`
unfoldable pub mark_pending : ℕ → Cache → Cache
unfolding write_object cache_id_of add_key
mark_pending address c = record c {
  heap = write_object (some address) (λ o. record o { pending = add_key cri o.pending }) c.heap;
  pending = cache_id_of (get_elem? c.heap address) c.pending;
}

or_new : Option LinuxContainerResources → LinuxContainerResources
or_new none = no_resources
or_new (some r) = r

-- The end of the setters: one field of the Linux resources is written and the change marked.
unfoldable pub write_resource :
    (LinuxContainerResources → LinuxContainerResources) → ℕ → Cache → Cache
unfolding mark_pending or_new write_object
write_resource change address c = mark_pending address (record c {
  heap =
      write_object (some address) (λ o. record o { linux_req = some (change (or_new o.linux_req)) })
        c.heap;
})

-- Nothing is checked. (The object that is given is stored as a value: that the caller may keep the
-- pointer to it is left out.)
unfoldable pub set_linux_resources : Option LinuxContainerResources → ℕ → Cache → Cache
unfolding mark_pending write_object
set_linux_resources req address c =
    mark_pending address
      (record c { heap = write_object (some address) (λ o. record o { linux_req = req }) c.heap })

unfoldable pub set_cpu_period : ℕ → ℕ → Cache → Cache
unfolding write_resource
set_cpu_period value address c =
    if is_neg value then c else write_resource (λ r. record r { cpu_period = value }) address c

unfoldable pub set_cpu_quota : ℕ → ℕ → Cache → Cache
unfolding write_resource
set_cpu_quota value address c =
    if is_neg value then c else write_resource (λ r. record r { cpu_quota = value }) address c

unfoldable pub set_cpu_shares : ℕ → ℕ → Cache → Cache
unfolding write_resource
set_cpu_shares value address c =
    if is_neg value then c else write_resource (λ r. record r { cpu_shares = value }) address c

unfoldable pub set_memory_limit : ℕ → ℕ → Cache → Cache
unfolding write_resource
set_memory_limit value address c =
    if is_neg value
    then c
    else write_resource (λ r. record r { memory_limit_in_bytes = value }) address c

unfoldable pub set_oom_score_adj : ℕ → ℕ → Cache → Cache
unfolding write_resource
set_oom_score_adj value address c =
    if slt value (2 ^ 64 - 1000) || slt 1000 value
    then c
    else write_resource (λ r. record r { oom_score_adj = value }) address c

unfoldable pub set_cpuset_cpus : Text → ℕ → Cache → Cache
unfolding write_resource
set_cpuset_cpus value address c = write_resource (λ r. record r { cpuset_cpus = value }) address c

unfoldable pub set_cpuset_mems : Text → ℕ → Cache → Cache
unfolding write_resource
set_cpuset_mems value address c = write_resource (λ r. record r { cpuset_mems = value }) address c

-- The getters: of the field in the Linux resources, and of its zero value where there are none
unfoldable pub resource_of {ℓ} :
    {A : Type ℓ} → (LinuxContainerResources → A) → Option LinuxContainerResources → A
unfolding or_new
resource_of field linux_req = field (or_new linux_req)

unfoldable pub has_pending : Text → Container → Bool
has_pending controller o = has_text o.pending controller

no_keys : List Text → Bool
no_keys [] = true
no_keys (k ∷ keys) = false

clear_mark : Option Container → List Text → List Text
unfolding remove_key no_keys
clear_mark none pending = pending
clear_mark (some o) pending = if no_keys o.pending then remove_key o.cache_id pending else pending

-- ClearPending of `container`, with clearPending of `cache`
unfoldable pub clear_pending : Text → ℕ → Cache → Cache
unfolding remove_key write_object clear_mark
clear_pending controller address c =
    let heap =
      write_object (some address) (λ o. record o { pending = remove_key controller o.pending })
        c.heap in
    record c { heap = heap; pending = clear_mark (get_elem? heap address) c.pending }

cons_found : Option Container → List Container → List Container
cons_found none found = found
cons_found (some o) found = o ∷ found

-- The loop of GetPendingContainers
unfoldable pub pending_in : List Text → Cache → List Container
unfolding cons_found
pending_in [] c = []
pending_in (id ∷ ids) c = cons_found (lookup_container id c) (pending_in ids c)

unfoldable pub get_pending_containers : Cache → List Container
unfolding pending_in
get_pending_containers c = pending_in c.pending c

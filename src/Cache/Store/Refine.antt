-- ===== src/Cache/Store/Refine.antt =====
-- The cache as its users see it: the pods, and a function from ids to containers, without the heap
-- and without the table of addresses.
use cloud_native.Prelude.{
  Bool, true, false, Option, none, some, List, [], ◌∷◌, ◌≡◌, ◌≢◌, refl, ap, ◌∙◌, subst,
  if◌then◌else◌,
}
use cloud_native.TopologyAware.Outcome.{
  Outcome, panic, err, ok, ◌>>=◌, >>=-eq-ok, unless_err, empty_id,
}
use cloud_native.TopologyAware.Request.Devices.{Text, is_empty}
use cloud_native.TopologyAware.Rebuild.{ContainerState}
use cloud_native.Cache.Table.{find, put, erase}
use cloud_native.Cache.Pods.{Pod, PodMessage, read_pod, new_pod}
use cloud_native.Cache.Containers.{Container, ContainerMessage, read_container}
use cloud_native.Cache.Store.{
  Cache, insert_pod, delete_pod, insert_container, store_container, delete_container,
  set_container_state, lookup_container,
}
use cloud_native.Cache.Store.Valid.{
  IsValid, changed, ok_inj, insert_container-IsValid, delete_container-IsValid,
  write_object-IsValid,
}
use cloud_native.Cache.Store.View.{
  update, view, view-store_container, view-delete_container, view-write_object,
}

-- A call of the cache
pub data Call : Type 0 where
  insert_pod_call : Text → PodMessage → Option Text → Call
  delete_pod_call : Text → Call
  insert_call : Text → ContainerMessage → Call
  delete_call : Text → Call
  set_state_call : Text → ContainerState → Call

unfoldable pub step : Call → Cache → Outcome Cache
unfolding insert_pod delete_pod insert_container delete_container set_container_state
step (insert_pod_call id msg status) c = insert_pod id msg status c
step (delete_pod_call id) c = ok (delete_pod id c)
step (insert_call id msg) c = insert_container id msg c
step (delete_call id) c = ok (delete_container id c)
step (set_state_call id next) c = ok (set_container_state id next c)

-- A sequence of calls, up to the first that fails
unfoldable pub run : List Call → Cache → Outcome Cache
unfolding step
run [] c = ok c
run (call ∷ calls) c = step call c >>= run calls

-- What the users see
abbrev pub Seen : Type 0
Seen = List (Text × Pod) × (Text → Option Container)

abbrev pub seen : Cache → Seen
seen c = (c.pods, view c)

abbrev pub map_ok {ℓ κ} : {A : Type ℓ} {B : Type κ} → (A → B) → Outcome A → Outcome B
map_ok f panic = panic
map_ok f (err e) = err e
map_ok f (ok a) = ok (f a)

-- The specification of a call
unfoldable pub spec_step : Call → Seen → Outcome Seen
spec_step (insert_pod_call id msg status) (pods, f) =
    if is_empty id
    then err empty_id
    else read_pod msg status (new_pod id) >>= λ p. ok (put pods p.id p, f)
spec_step (delete_pod_call id) (pods, f) = ok (erase pods id, f)
spec_step (insert_call id msg) (pods, f) =
    read_container id msg pods >>= λ (pods, o). ok (pods, update f id (some (record o { id = id })))
spec_step (delete_call id) (pods, f) = ok (pods, update f id none)
spec_step (set_state_call id next) (pods, f) =
    ok (pods, update f id (changed (λ o. record o { state = next }) (f id)))

unfoldable pub spec_run : List Call → Seen → Outcome Seen
unfolding spec_step
spec_run [] s = ok s
spec_run (call ∷ calls) s = spec_step call s >>= spec_run calls

-- Containers are not inserted under the empty id.
abbrev pub IsNamed : Call → Type 0
IsNamed (insert_pod_call id msg status) = Unit {0}
IsNamed (delete_pod_call id) = Unit {0}
IsNamed (insert_call id msg) = id ≢ []
IsNamed (delete_call id) = Unit {0}
IsNamed (set_state_call id next) = Unit {0}

abbrev pub AreNamed : List Call → Type 0
AreNamed [] = Unit {0}
AreNamed (call ∷ calls) = IsNamed call × AreNamed calls

bind_seen :
    {A : Type 0} (o : Outcome A) (f : A → Cache) (g : A → Seen)
    → ((a : A) → seen (f a) ≡ g a)
    → map_ok seen (o >>= λ a. ok (f a)) ≡ (o >>= λ a. ok (g a))
bind_seen panic f g h = refl
bind_seen (err e) f g h = refl
bind_seen (ok a) f g h = ap ok (h a)

elim_insert :
    (b : Bool) (o : Outcome Pod) (c : Cache)
    → map_ok seen
        (if b then err empty_id else o >>= λ p. ok (record c { pods = put c.pods p.id p }))
      ≡ (if b then err empty_id else o >>= λ p. ok (put c.pods p.id p, view c))
unfolding lookup_container
elim_insert true o c = refl
elim_insert false o c = bind_seen o (λ p. record c { pods = put c.pods p.id p }) _ (λ p. refl)

step-seen :
    (call : Call) (c : Cache) → IsValid c → map_ok seen (step call c) ≡ spec_step call (seen c)
unfolding step spec_step insert_pod delete_pod insert_container set_container_state store_container
    lookup_container
step-seen (insert_pod_call id msg status) c v =
    elim_insert (is_empty id) (read_pod msg status (new_pod id)) c
step-seen (delete_pod_call id) c v = refl
step-seen (insert_call id msg) c v =
    bind_seen (read_container id msg c.pods) (store_container id c) _
      (λ r. ap (λ f. (r.0, f)) (view-store_container id c r v))
step-seen (delete_call id) c v = ap (λ f. ok (c.pods, f)) (view-delete_container id c v)
step-seen (set_state_call id next) c v =
    ap (λ f. ok (c.pods, f)) (view-write_object id c (λ o. record o { state = next }) v)

step-IsValid :
    (call : Call) (c : Cache) {d : Cache}
    → IsNamed call
    → IsValid c
    → step call c ≡ ok d
    → IsValid d
unfolding step insert_pod delete_pod set_container_state
step-IsValid (insert_pod_call id msg status) c named v h =
    let (p, read, same) =
      >>=-eq-ok (read_pod msg status (new_pod id)) (λ p. ok (record c { pods = put c.pods p.id p }))
        (unless_err (is_empty id) empty_id _ h) in
    subst IsValid (ok_inj same)
      (record { entries = v.entries; no_empty = v.no_empty; distinct = v.distinct })
step-IsValid (delete_pod_call id) c named v h =
    subst IsValid (ok_inj h)
      (record { entries = v.entries; no_empty = v.no_empty; distinct = v.distinct })
step-IsValid (insert_call id msg) c named v h = insert_container-IsValid id msg c named v h
step-IsValid (delete_call id) c named v h =
    subst IsValid (ok_inj h) (delete_container-IsValid id c v)
step-IsValid (set_state_call id next) c named v h = subst IsValid (ok_inj h) (
    write_object-IsValid c (find c.containers id) (λ o. record o { state = next })
      (λ o. (refl, refl)) v)

bind_run :
    (calls : List Call) (o : Outcome Cache) {s : Outcome Seen}
    → map_ok seen o ≡ s
    → ((d : Cache) → o ≡ ok d → map_ok seen (run calls d) ≡ spec_run calls (seen d))
    → map_ok seen (o >>= run calls) ≡ (s >>= spec_run calls)
bind_run calls panic h next = ap (λ s. s >>= spec_run calls) h
bind_run calls (err e) h next = ap (λ s. s >>= spec_run calls) h
bind_run calls (ok d) h next = next d refl ∙ ap (λ s. s >>= spec_run calls) h

-- Seen through its pods and the function that looks a container up, a run of calls (insertion and
-- deletion of pods and containers, changes of state) does on a valid cache what the specification
-- does on a plain function from ids to containers, up to and including the first error or panic. No
-- container is inserted under the empty id.
pub run-seen :
    (calls : List Call) (c : Cache)
    → AreNamed calls
    → IsValid c
    → map_ok seen (run calls c) ≡ spec_run calls (seen c)
unfolding run spec_run
run-seen [] c named v = refl
run-seen (call ∷ calls) c (named, rest) v =
    bind_run calls (step call c) (step-seen call c v)
      (λ d h. run-seen calls d rest (step-IsValid call c named v h))

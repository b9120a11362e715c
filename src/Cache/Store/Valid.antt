-- ===== src/Cache/Store/Valid.antt =====
-- The invariant of the table of containers: each key is the id of the container it points to.
use cloud_native.Prelude.{
  ℕ, suc, zero, Option, none, some, List, [], ◌∷◌, ◌++◌, ◌≡◌, ◌≢◌, refl, sym, ◌∙◌, subst, ◌⊎◌, inl,
  inr, arith, length, get_elem?, if◌then◌else◌, Bool-cases, Option-cases, ◌==◌,
}
use cloud_native.TopologyAware.Outcome.{Outcome, ok, >>=-eq-ok}
use cloud_native.TopologyAware.Request.Devices.{Text}
use cloud_native.TopologyAware.Filter.{text_eq}
use cloud_native.PcoreBinding.Topology.Distinct.{text_eq→eq}
use cloud_native.Cache.Table.{
  find, erase, find-put, find-erase, IsTable, put-IsTable, erase-IsTable,
}
use cloud_native.Cache.Containers.{Container, ContainerMessage, Reading, read_container}
use cloud_native.Cache.Containers.Read.{read_container_cache_id}
use cloud_native.Cache.Store.{
  Cache, store_container, insert_container, delete_container, modify, write_object, erase_keys,
  lookup_container,
}

-- The object that key `k` points to is `o`.
pub record IsEntry (heap : List Container) (k : Text) (address : ℕ) : Type 0 where
  pub object : Container
  pub stored : get_elem? heap address ≡ some object
  pub same_id : object.id ≡ k
  pub cache_id : (object.cache_id ≡ []) ⊎ (object.cache_id ≡ k)

-- No key is the empty text: deleting a container without a cache id deletes that key as well.
pub record IsValid (c : Cache) : Type 0 where
  pub entries : (k : Text) (a : ℕ) → find c.containers k ≡ some a → IsEntry c.heap k a
  pub no_empty : find c.containers [] ≡ none
  pub distinct : IsTable c.containers

pub get_elem?-append :
    (heap : List Container) (o p : Container) (a : ℕ)
    → get_elem? heap a ≡ some p
    → get_elem? (heap ++ o ∷ []) a ≡ some p
get_elem?-append [] o p a h = cc
get_elem?-append (q ∷ heap) o p zero h = h
get_elem?-append (q ∷ heap) o p (suc a) h = get_elem?-append heap o p a h

pub get_elem?-append_last :
    (heap : List Container) (o : Container) → get_elem? (heap ++ o ∷ []) (length heap) ≡ some o
get_elem?-append_last [] o = refl
get_elem?-append_last (q ∷ heap) o = get_elem?-append_last heap o

pub ok_inj : {c d : Cache} → ◌≡◌ {A = Outcome Cache} (ok c) (ok d) → c ≡ d
ok_inj h = cc

store_container-IsValid :
    (id : Text) (c : Cache) (r : Reading)
    → (r.1.cache_id ≡ []) ⊎ (r.1.cache_id ≡ id)
    → id ≢ []
    → IsValid c
    → IsValid (store_container id c r)
unfolding store_container
store_container-IsValid id c r cache_id named v = record {
  entries = λ k a h. elim (Bool-cases (text_eq id k)) [
    | inl same ↦
        let here = text_eq→eq id k same in
        let e : length c.heap ≡ a = ground (arith, find-put c.containers id k (length c.heap)) in
        subst (λ a. IsEntry (c.heap ++ record r.1 { id = id } ∷ []) k a) e
          (record {
            object = record r.1 { id = id };
            stored = get_elem?-append_last c.heap (record r.1 { id = id });
            same_id = here;
            cache_id = subst (λ k. (r.1.cache_id ≡ []) ⊎ (r.1.cache_id ≡ k)) here cache_id;
          })
    | inr other ↦
        let known = v.entries k a (ground (arith, find-put c.containers id k (length c.heap))) in
        record {
          object = known.object;
          stored = get_elem?-append c.heap (record r.1 { id = id }) known.object a known.stored;
          same_id = known.same_id;
          cache_id = known.cache_id;
        }
  ];
  no_empty = elim (Bool-cases (text_eq id [])) [
    | inl same ↦ absurd (named (text_eq→eq id [] same))
    | inr other ↦ ground (arith, find-put c.containers id [] (length c.heap), v.no_empty)
  ];
  distinct = put-IsTable c.containers id (length c.heap) v.distinct;
}

-- An insertion under an id keeps the invariant.
pub insert_container-IsValid :
    (id : Text) (msg : ContainerMessage) (c : Cache) {d : Cache}
    → id ≢ []
    → IsValid c
    → insert_container id msg c ≡ ok d
    → IsValid d
unfolding insert_container
insert_container-IsValid id msg c named v h =
    let (r, read, same) =
      >>=-eq-ok (read_container id msg c.pods) (λ r. ok (store_container id c r)) h in
    subst IsValid (ok_inj same)
      (store_container-IsValid id c r (read_container_cache_id id msg c.pods read) named v)

find-erase_keys-some :
    (o : Option Container) (m : List (Text × ℕ)) (k : Text) (a : ℕ)
    → find (erase_keys o m) k ≡ some a
    → find m k ≡ some a
unfolding erase_keys
find-erase_keys-some none m k a h = h
find-erase_keys-some (some o) m k a h =
    ground (arith, find-erase (erase m o.id) o.cache_id k, find-erase m o.id k)

erase_keys-IsTable :
    (o : Option Container) (m : List (Text × ℕ)) → IsTable m → IsTable (erase_keys o m)
unfolding erase_keys
erase_keys-IsTable none m h = h
erase_keys-IsTable (some o) m h = erase-IsTable (erase m o.id) o.cache_id (erase-IsTable m o.id h)

pub delete_container-IsValid : (id : Text) (c : Cache) → IsValid c → IsValid (delete_container id c)
unfolding delete_container erase_keys lookup_container
delete_container-IsValid id c v = record {
  entries =
      λ k a h. v.entries k a (find-erase_keys-some (lookup_container id c) c.containers k a h);
  no_empty = elim (Option-cases (find (delete_container id c).containers [])) [
    | inl nothing ↦ nothing
    | inr (a, e) ↦
        let known = find-erase_keys-some (lookup_container id c) c.containers [] a e in
        ground (arith, v.no_empty)
  ];
  distinct = erase_keys-IsTable (lookup_container id c) c.containers v.distinct;
}

-- A change of an object that keeps its ids
abbrev pub KeepsIds : (Container → Container) → Type 0
KeepsIds change = (o : Container) → ((change o).id ≡ o.id) × ((change o).cache_id ≡ o.cache_id)

abbrev pub changed : (Container → Container) → Option Container → Option Container
changed change none = none
changed change (some o) = some (change o)

pub get_elem?-modify :
    (heap : List Container) (b a : ℕ) (change : Container → Container)
    → get_elem? (modify heap b change) a
      ≡ (if b == a then changed change (get_elem? heap a) else get_elem? heap a)
unfolding modify
get_elem?-modify [] b a change = ground arith
get_elem?-modify (o ∷ heap) zero zero change = refl
get_elem?-modify (o ∷ heap) zero (suc a) change = ground arith
get_elem?-modify (o ∷ heap) (suc b) zero change = ground arith
get_elem?-modify (o ∷ heap) (suc b) (suc a) change =
    ground (arith, get_elem?-modify heap b a change)

modify-IsEntry :
    (heap : List Container) (b : ℕ) (change : Container → Container) (k : Text) (a : ℕ)
    → KeepsIds change
    → IsEntry heap k a
    → IsEntry (modify heap b change) k a
modify-IsEntry heap b change k a keeps known = elim (Bool-cases (b == a)) [
  | inl here ↦
      let (id, cache_id) = keeps known.object in
      record {
        object = change known.object;
        stored = get_elem?-modify heap b a change ∙ rw (here, known.stored) refl;
        same_id = id ∙ known.same_id;
        cache_id = subst (λ t. (t ≡ []) ⊎ (t ≡ k)) (sym cache_id) known.cache_id;
      }
  | inr other ↦ record {
    object = known.object;
    stored = get_elem?-modify heap b a change ∙ rw (other, known.stored) refl;
    same_id = known.same_id;
    cache_id = known.cache_id;
  }
]

write_object-IsEntry :
    (heap : List Container) (p : Option ℕ) (change : Container → Container) (k : Text) (a : ℕ)
    → KeepsIds change
    → IsEntry heap k a
    → IsEntry (write_object p change heap) k a
unfolding write_object
write_object-IsEntry heap none change k a keeps known = known
write_object-IsEntry heap (some b) change k a keeps known =
    modify-IsEntry heap b change k a keeps known

-- A write to an object that keeps its ids keeps the invariant.
pub write_object-IsValid :
    (c : Cache) (p : Option ℕ) (change : Container → Container)
    → KeepsIds change
    → IsValid c
    → IsValid (record c { heap = write_object p change c.heap })
write_object-IsValid c p change keeps v = record {
  entries = λ k a h. write_object-IsEntry c.heap p change k a keeps (v.entries k a h);
  no_empty = v.no_empty;
  distinct = v.distinct;
}

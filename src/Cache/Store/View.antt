-- ===== src/Cache/Store/View.antt =====
-- The table of containers as a function from ids to containers: what each operation does to it.
use cloud_native.Prelude.{
  ℕ, Option, none, some, [], ◌≡◌, refl, sym, ap, ◌∙◌, ◌⊎◌, inl, inr, arith, length, get_elem?,
  if◌then◌else◌, Bool-cases, Option-cases, ◌==◌, ==_iff,
}
use mathlib.Core.Path.{fun_ext}
use mathlib.Core.Bool.{true≢false}
use cloud_native.TopologyAware.Request.Devices.{Text}
use cloud_native.TopologyAware.Filter.{text_eq}
use cloud_native.PcoreBinding.Topology.Distinct.{text_eq_refl, text_eq→eq}
use cloud_native.Cache.Table.{find, erase, find-put, find-erase}
use cloud_native.Cache.Containers.{Container, Reading}
use cloud_native.Cache.Store.{
  Cache, store_container, delete_container, write_object, erase_keys, lookup_container, deref,
}
use cloud_native.Cache.Store.Valid.{
  IsValid, changed, get_elem?-append, get_elem?-append_last, get_elem?-modify,
}

-- A function, changed at one id
abbrev pub update {ℓ} : {A : Type ℓ} → (Text → Option A) → Text → Option A → Text → Option A
update f id w k = if text_eq id k then w else f k

-- `lookup_container` of a cache, as a function
abbrev pub view : Cache → Text → Option Container
view c k = lookup_container k c

-- What was just put under an id is found there.
pub lookup-store_container :
    (id : Text) (c : Cache) (r : Reading)
    → lookup_container id (store_container id c r) ≡ some (record r.1 { id = id })
unfolding lookup_container deref store_container
lookup-store_container id c r =
    rw (find-put c.containers id id (length c.heap), text_eq_refl id)
      (get_elem?-append_last c.heap (record r.1 { id = id }))

object_id : Option Container → Text
object_id none = []
object_id (some o) = o.id

pub view-store_container :
    (id : Text) (c : Cache) (r : Reading)
    → IsValid c
    → view (store_container id c r) ≡ update (view c) id (some (record r.1 { id = id }))
unfolding store_container lookup_container deref
view-store_container id c r v = fun_ext λ k. elim (Bool-cases (text_eq id k)) [
  | inl same ↦
      rw (find-put c.containers id k (length c.heap), same)
        (get_elem?-append_last c.heap (record r.1 { id = id }))
  | inr other ↦ elim (Option-cases (find c.containers k)) [
    | inl nothing ↦ rw (find-put c.containers id k (length c.heap), other, nothing) refl
    | inr (a, e) ↦
        let known = v.entries k a e in
        rw (find-put c.containers id k (length c.heap), other, e, known.stored)
          (get_elem?-append c.heap (record r.1 { id = id }) known.object a known.stored)
  ]
]

-- Both keys of an object are erased, of which the second is the first or the empty text.
view-erase_keys :
    (id k : Text) (c : Cache) (o : Container)
    → o.id ≡ id
    → (o.cache_id ≡ []) ⊎ (o.cache_id ≡ id)
    → IsValid c
    → deref c.heap (find (erase_keys (some o) c.containers) k) ≡ update (view c) id none k
unfolding deref lookup_container erase_keys
view-erase_keys id k c o same_id (inl empty) v =
    rw (same_id, empty, find-erase (erase c.containers id) [] k, find-erase c.containers id k)
      (elim (Bool-cases (text_eq [] k)) [
        | inl hit ↦
            let absent : find c.containers k ≡ none =
              ap (find c.containers) (sym (text_eq→eq [] k hit)) ∙ v.no_empty in
            rw (hit, absent) (ground arith)
        | inr other ↦ rw other (ground arith)
      ])
view-erase_keys id k c o same_id (inr same) v =
    rw (same_id, same, find-erase (erase c.containers id) id k, find-erase c.containers id k)
      (ground arith)

pub view-delete_container :
    (id : Text) (c : Cache) → IsValid c → view (delete_container id c) ≡ update (view c) id none
unfolding delete_container lookup_container deref erase_keys
view-delete_container id c v = fun_ext λ k. elim (Option-cases (find c.containers id)) [
  | inl nothing ↦ elim (Bool-cases (text_eq id k)) [
    | inl same ↦
        let absent : find c.containers k ≡ none =
          ap (find c.containers) (sym (text_eq→eq id k same)) ∙ nothing in
        rw (nothing, same, absent) refl
    | inr other ↦ rw (nothing, other) refl
  ]
  | inr (a, e) ↦
      let known = v.entries id a e in
      rw (e, known.stored) (view-erase_keys id k c known.object known.same_id known.cache_id v)
]

-- One object is never under two keys.
pub same_address :
    (c : Cache) (id k : Text) (a b : ℕ)
    → IsValid c
    → find c.containers id ≡ some a
    → find c.containers k ≡ some b
    → a ≡ b
    → id ≡ k
unfolding object_id
same_address c id k a b v e e' same =
    let known = v.entries id a e in
    let known' = v.entries k b e' in
    let one : some known.object ≡ some known'.object =
      sym known.stored ∙ (ap (get_elem? c.heap) same ∙ known'.stored) in
    sym known.same_id ∙ (ap object_id one ∙ known'.same_id)

pub view-write_object :
    (id : Text) (c : Cache) (change : Container → Container)
    → IsValid c
    → view (record c { heap = write_object (find c.containers id) change c.heap })
      ≡ update (view c) id (changed change (view c id))
unfolding lookup_container deref write_object
view-write_object id c change v = fun_ext λ k. elim (Option-cases (find c.containers id)) [
  | inl nothing ↦ elim (Bool-cases (text_eq id k)) [
    | inl same ↦
        let absent : find c.containers k ≡ none =
          ap (find c.containers) (sym (text_eq→eq id k same)) ∙ nothing in
        rw (nothing, same, absent) refl
    | inr other ↦ rw (nothing, other) refl
  ]
  | inr (a, e) ↦ elim (Bool-cases (text_eq id k)) [
    | inl same ↦
        let here : find c.containers k ≡ some a =
          ap (find c.containers) (sym (text_eq→eq id k same)) ∙ e in
        rw (e, same, here) (get_elem?-modify c.heap a a change ∙ ground arith)
    | inr other ↦ elim (Option-cases (find c.containers k)) [
      | inl nothing ↦ rw (e, other, nothing) refl
      | inr (b, e') ↦ elim (Bool-cases (a == b)) [
        | inl alias ↦
            let same = same_address c id k a b v e e' ((==_iff a b).0 alias) in
            absurd (true≢false (sym (text_eq_refl k) ∙ (ap (λ t. text_eq t k) (sym same) ∙ other)))
        | inr apart ↦ rw (e, other, e') (get_elem?-modify c.heap a b change ∙ rw apart refl)
      ]
    ]
  ]
]

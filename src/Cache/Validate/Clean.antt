-- ===== src/Cache/Validate/Clean.antt =====
-- After the containers that ValidateCachedContainers names are cleaned up, the cache has exactly
-- those that the runtime knows.
use cloud_native.Prelude.{
  ℕ, true, false, Option, none, some, List, [], ◌∷◌, ◌≡◌, refl, ap, ◌∙◌, inl, inr, arith, get_elem?,
  if◌then◌else◌, Bool-cases, Option-cases,
}
use mathlib.Core.Path.{fun_ext}
use cloud_native.TopologyAware.Request.Devices.{Text}
use cloud_native.TopologyAware.Filter.{text_eq}
use cloud_native.PcoreBinding.Topology.{has_text}
use cloud_native.PcoreBinding.Topology.Distinct.{text_eq_refl, text_eq→eq}
use cloud_native.Cache.Table.{find, AreFound}
use cloud_native.Cache.Containers.{Container}
use cloud_native.Cache.Store.{Cache, delete_container, lookup_container, deref}
use cloud_native.Cache.Store.Valid.{IsValid, delete_container-IsValid}
use cloud_native.Cache.Store.View.{view, view-delete_container}
use cloud_native.Cache.Validate.{
  is_known, cons_stale, stale_in, validate_cached_containers, cleanup_stale_containers,
}

without : List Text → (Text → Option Container) → Text → Option Container
without ids f k = if has_text ids k then none else f k

view-cleanup_stale_containers :
    (ids : List Text) (c : Cache) (k : Text)
    → IsValid c
    → view (cleanup_stale_containers ids c).1 k ≡ without ids (view c) k
unfolding cleanup_stale_containers without has_text
view-cleanup_stale_containers [] c k v = refl
view-cleanup_stale_containers (id ∷ ids) c k v =
    view-cleanup_stale_containers ids (delete_container id c) k (delete_container-IsValid id c v)
    ∙ (ap (λ f. without ids f k) (view-delete_container id c v) ∙ ground arith)

-- Only ids that are not known are listed.
has_text-stale_in_known :
    (ids : List Text) (m : List (Text × ℕ)) (c : Cache) (k : Text)
    → AreFound c.containers m
    → IsValid c
    → is_known ids k ≡ true
    → has_text (stale_in ids m c.heap) k ≡ false
unfolding stale_in cons_stale has_text
has_text-stale_in_known ids [] c k found v known = refl
has_text-stale_in_known ids ((key, a) ∷ m) c k (h, found) v known =
    let rest = has_text-stale_in_known ids m c k found v known in
    let entry = v.entries key a h in
    rw (entry.stored, entry.same_id)
      (elim (Bool-cases (text_eq key k)) [
        | inl same ↦ rw (ap (is_known ids) (text_eq→eq key k same), known, rest) refl
        | inr other ↦ elim (Bool-cases (is_known ids key)) [
          | inl known ↦ rw known rest
          | inr unknown ↦ rw (unknown, other) rest
        ]
      ])

has_text-cons_stale :
    (ids : List Text) (o : Option Container) (k : Text) (rest : List Text)
    → has_text rest k ≡ true
    → has_text (cons_stale ids o rest) k ≡ true
unfolding cons_stale has_text
has_text-cons_stale ids none k rest h = h
has_text-cons_stale ids (some o) k rest h = ground arith

has_text-stale_in_unknown :
    (ids : List Text) (m : List (Text × ℕ)) (heap : List Container) (k : Text) (a : ℕ)
    (o : Container)
    → find m k ≡ some a
    → get_elem? heap a ≡ some o
    → o.id ≡ k
    → is_known ids k ≡ false
    → has_text (stale_in ids m heap) k ≡ true
unfolding stale_in cons_stale has_text find
has_text-stale_in_unknown ids [] heap k a o h stored same unknown = cc
has_text-stale_in_unknown ids ((key, b) ∷ m) heap k a o h stored same unknown =
    elim (Bool-cases (text_eq key k)) [
      | inl here ↦
          let first : b ≡ a = ground arith in rw (first, stored, same, unknown, text_eq_refl k) refl
      | inr other ↦
          has_text-cons_stale ids (get_elem? heap b) k _
            (has_text-stale_in_unknown ids m heap k a o (ground arith) stored same unknown)
    ]

-- After the clean-up of what validation finds stale, a valid cache has the known containers only.
pub cleanup-validate :
    (ids : List Text) (c : Cache)
    → IsValid c
    → view (cleanup_stale_containers (validate_cached_containers ids c) c).1
      ≡ (λ k. if is_known ids k then view c k else none)
unfolding validate_cached_containers without lookup_container deref
cleanup-validate ids c v = fun_ext λ k.
    view-cleanup_stale_containers (stale_in ids c.containers c.heap) c k v
    ∙ elim (Bool-cases (is_known ids k)) [
      | inl known ↦ rw (known, has_text-stale_in_known ids c.containers c k v.distinct v known) refl
      | inr unknown ↦ elim (Option-cases (find c.containers k)) [
        | inl nothing ↦
            let absent : view c k ≡ none = ap (deref c.heap) nothing in
            rw (unknown, absent) (ground arith)
        | inr (a, e) ↦
            let entry = v.entries k a e in
            rw
              (
                unknown,
                has_text-stale_in_unknown ids c.containers c.heap k a entry.object e entry.stored
                    entry.same_id unknown,
              )
              refl
      ]
    ]

-- ===== src/TopologyAware/Hooks/Returned.antt =====
-- releasePool of topology_aware.go keeps the books.
use cloud_native.Prelude.{
  ℕ, ◌≤◌, true, false, ◌||◌, String, some, List, [], ◌∷◌, ◌≡◌, arith, ap, ◌∙◌, str_eq, Bool-cases,
  inl, inr, ◌==◌, ==_iff, if◌then◌else◌, Option-cases,
}
use cloud_native.TopologyAware.CpuSets.{CpuSetLib}
use cloud_native.TopologyAware.Request.{ContainerRequest}
use cloud_native.TopologyAware.Supply.{Supply, Grant, release}
use cloud_native.TopologyAware.Tree.{Nodes, IsOrdered, parent_of, covers}
use cloud_native.TopologyAware.Propagate.{subtract_grant, set_free, propagate_resource_to_parent}
use cloud_native.TopologyAware.Propagate.Chain.{propagate_from-at, above_lt}
use cloud_native.TopologyAware.Policy.{Policy}
use cloud_native.TopologyAware.Hooks.{
  grant_key, load_grant, delete_grant, release_pool, release_found,
}
use cloud_native.TopologyAware.Hooks.Booked.{total, IsDistinct, booked-delete, delete-IsDistinct}
use cloud_native.TopologyAware.Hooks.Account.{IsBooked, IsLight, IsAccounted, IsBooked-IsNonneg}

module _ (lib : CpuSetLib) where
  release-eq-subtract_grant :
      (nodes : Nodes lib) (gid : String) (grants : List (String × Grant)) (a : ℕ) (s : Supply lib)
      (g : Grant)
      → IsLight lib grants
      → IsDistinct grants
      → IsBooked lib nodes grants a s
      → load_grant gid grants ≡ some g
      → covers lib nodes a g.node ≡ true
      → IsBooked lib nodes (delete_grant gid grants) a (subtract_grant lib s g)
        × IsBooked lib nodes (delete_grant gid grants) a (release lib s g)
  unfolding subtract_grant release
  release-eq-subtract_grant nodes gid grants a s g l d b h c =
      let cpus : Grant → ℕ = λ g. g.allocated_cpus in
      let by_request : Grant → ℕ = λ g. g.allocated_cpu_by_request in
      let by_limit : Grant → ℕ = λ g. g.allocated_cpu_by_limit in
      let memory : Grant → ℕ = λ g. g.allocated_memory in
      ground (
        arith,
        IsBooked-IsNonneg lib nodes grants a s l b,
        booked-delete lib nodes cpus gid grants g a d h,
        booked-delete lib nodes by_request gid grants g a d h,
        booked-delete lib nodes by_limit gid grants g a d h,
        booked-delete lib nodes memory gid grants g a d h,
      )

  module _ (nodes : Nodes lib) (ordered : IsOrdered lib nodes) (free : ℕ → Supply lib)
      (g : Grant) where
    released-at :
        (a : ℕ)
        → set_free lib
            (propagate_resource_to_parent lib nodes g false free)
            g.node
            (release lib (propagate_resource_to_parent lib nodes g false free g.node) g)
            a
          ≡ (if covers lib nodes a g.node
              then if g.node == a then release lib (free a) g else subtract_grant lib (free a) g
              else free a)
    unfolding propagate_resource_to_parent covers
    released-at a =
        let n = g.node in
        ground (
          arith,
          propagate_from-at lib nodes ordered n (parent_of lib nodes n) g false free a,
          propagate_from-at lib nodes ordered n (parent_of lib nodes n) g false free n,
          above_lt lib nodes ordered n n n,
          above_lt lib nodes ordered n n a,
          ==_iff n a,
          ap free,
        )

  total-delete-le :
      (amount : Grant → ℕ) (gid : String) (grants : List (String × Grant))
      → total amount (delete_grant gid grants) ≤ total amount grants
  unfolding total delete_grant
  total-delete-le amount gid [] = omega arith
  total-delete-le amount gid ((k, g) ∷ grants) = ground (arith, total-delete-le amount gid grants)

  delete-IsLight :
      (gid : String) (grants : List (String × Grant))
      → IsLight lib grants
      → IsLight lib (delete_grant gid grants)
  delete-IsLight gid grants l = ground (
    arith,
    total-delete-le (λ g. g.allocated_cpus) gid grants,
    total-delete-le (λ g. g.allocated_cpu_by_request) gid grants,
    total-delete-le (λ g. g.allocated_cpu_by_limit) gid grants,
    total-delete-le (λ g. g.allocated_memory) gid grants,
  )

  IsBooked-uncovered :
      (nodes : Nodes lib) (gid : String) (grants : List (String × Grant)) (a : ℕ) (s : Supply lib)
      (g : Grant)
      → IsDistinct grants
      → IsBooked lib nodes grants a s
      → load_grant gid grants ≡ some g
      → covers lib nodes a g.node ≡ false
      → IsBooked lib nodes (delete_grant gid grants) a s
  IsBooked-uncovered nodes gid grants a s g d b h c =
      let cpus : Grant → ℕ = λ g. g.allocated_cpus in
      let by_request : Grant → ℕ = λ g. g.allocated_cpu_by_request in
      let by_limit : Grant → ℕ = λ g. g.allocated_cpu_by_limit in
      let memory : Grant → ℕ = λ g. g.allocated_memory in
      ground (
        arith,
        booked-delete lib nodes cpus gid grants g a d h,
        booked-delete lib nodes by_request gid grants g a d h,
        booked-delete lib nodes by_limit gid grants g a d h,
        booked-delete lib nodes memory gid grants g a d h,
      )

  -- The supply of a node after a release
  abbrev after_release : Policy lib → Grant → ℕ → Supply lib
  after_release p g a =
      if covers lib p.nodes a g.node
      then if g.node == a then release lib (p.free a) g else subtract_grant lib (p.free a) g
      else p.free a

  after_release-node :
      (p : Policy lib) (g : Grant) (a : ℕ) → (after_release p g a).node ≡ (p.free a).node
  unfolding release subtract_grant
  after_release-node p g a = ground arith

  after_release-IsBooked :
      (p : Policy lib) (gid : String) (g : Grant) (a : ℕ)
      → IsAccounted lib p
      → load_grant gid p.grants ≡ some g
      → IsBooked lib p.nodes (delete_grant gid p.grants) a (after_release p g a)
  after_release-IsBooked p gid g a w h = elim (Bool-cases (covers lib p.nodes a g.node)) [
    | inl c ↦
        let (above, own) =
          release-eq-subtract_grant p.nodes gid p.grants a (p.free a) g w.light w.distinct
            (w.supplies a) h c in
        elim (Bool-cases (g.node == a)) [
          | inl same ↦ rw (c, same) own
          | inr other ↦ rw (c, other) above
        ]
    | inr c ↦
        rw c (IsBooked-uncovered p.nodes gid p.grants a (p.free a) g w.distinct (w.supplies a) h c)
  ]

  IsAccounted-release_found :
      (p : Policy lib) (gid : String) (g : Grant)
      → IsAccounted lib p
      → load_grant gid p.grants ≡ some g
      → IsAccounted lib (release_found lib p gid (some g)).0
  unfolding release_found
  IsAccounted-release_found p gid g w h = record {
    ordered = w.ordered;
    named =
        λ a. rw (released-at p.nodes w.ordered p.free g a) (after_release-node p g a ∙ w.named a);
    distinct = delete-IsDistinct gid p.grants w.distinct;
    light = delete-IsLight gid p.grants w.light;
    supplies =
        λ a. rw (released-at p.nodes w.ordered p.free g a) (after_release-IsBooked p gid g a w h);
  }

  -- If the books are right, they are right after releasePool, whatever container it is called for:
  -- one that holds a grant, one that holds none, or one whose identifiers are missing.
  pub release_pool-IsAccounted :
      (p : Policy lib) (c : ContainerRequest)
      → IsAccounted lib p
      → IsAccounted lib (release_pool lib p c).0
  unfolding release_pool
  release_pool-IsAccounted p c w =
      elim (Bool-cases (str_eq c.container_id "" || str_eq c.pod_uid "")) [
        | inl missing ↦ rw missing w
        | inr given ↦
            elim (Option-cases (load_grant (grant_key c.pod_uid c.container_name) p.grants)) [
              | inl nothing ↦ rw (given, nothing) w
              | inr (g, h) ↦
                  rw (given, h)
                    (IsAccounted-release_found p (grant_key c.pod_uid c.container_name) g w h)
            ]
      ]

-- ===== src/TopologyAware/Hooks/Booked.antt =====
-- What the grants of topology_aware.go amount to at a node: the sum over the grants taken from the
-- node or below it.
use cloud_native.Prelude.{
  ℕ, ◌+◌, ◌≤◌, String, none, some, List, [], ◌∷◌, ◌≡◌, refl, ap, subst, arith, str_eq, eq_iff,
  Bool-cases, inl, inr, if◌then◌else◌,
}
use cloud_native.TopologyAware.CpuSets.{CpuSetLib}
use cloud_native.TopologyAware.Supply.{Grant}
use cloud_native.TopologyAware.Tree.{Nodes, covers}
use cloud_native.TopologyAware.Hooks.{load_grant, delete_grant}

unfoldable pub total : (Grant → ℕ) → List (String × Grant) → ℕ
total amount [] = 0
total amount ((k, g) ∷ grants) = amount g + total amount grants

-- Each key stands once.
abbrev pub IsDistinct : List (String × Grant) → Type 0
IsDistinct [] = Unit {0}
IsDistinct ((k, g) ∷ grants) = (load_grant k grants ≡ none) × IsDistinct grants

pub delete-eq_of_none :
    (gid : String) (grants : List (String × Grant))
    → load_grant gid grants ≡ none
    → delete_grant gid grants ≡ grants
unfolding load_grant delete_grant
delete-eq_of_none gid [] h = refl
delete-eq_of_none gid ((k, g) ∷ grants) h = ground (arith, delete-eq_of_none gid grants)

load-delete_none :
    (gid k : String) (grants : List (String × Grant))
    → load_grant k grants ≡ none
    → load_grant k (delete_grant gid grants) ≡ none
unfolding load_grant delete_grant
load-delete_none gid k [] h = refl
load-delete_none gid k ((j, g) ∷ grants) h = ground (arith, load-delete_none gid k grants)

pub load-delete_self :
    (gid : String) (grants : List (String × Grant))
    → load_grant gid (delete_grant gid grants) ≡ none
unfolding load_grant delete_grant
load-delete_self gid [] = refl
load-delete_self gid ((j, g) ∷ grants) = ground (arith, load-delete_self gid grants)

pub delete-IsDistinct :
    (gid : String) (grants : List (String × Grant))
    → IsDistinct grants
    → IsDistinct (delete_grant gid grants)
unfolding delete_grant
delete-IsDistinct gid [] d = tt
delete-IsDistinct gid ((k, g) ∷ grants) d = elim (Bool-cases (str_eq k gid)) [
  | inl e ↦ rw e (delete-IsDistinct gid grants d.1)
  | inr ne ↦ rw ne (load-delete_none gid k grants d.0, delete-IsDistinct gid grants d.1)
]

module _ (lib : CpuSetLib) (nodes : Nodes lib) (amount : Grant → ℕ) where
  abbrev pub share : ℕ → Grant → ℕ
  share a g = if covers lib nodes a g.node then amount g else 0

  unfoldable pub booked : List (String × Grant) → ℕ → ℕ
  booked [] a = 0
  booked ((k, g) ∷ grants) a = share a g + booked grants a

  pub booked-le-total :
      (grants : List (String × Grant)) (a : ℕ) → booked grants a ≤ total amount grants
  unfolding booked total
  booked-le-total [] a = omega arith
  booked-le-total ((k, g) ∷ grants) a = ground (arith, booked-le-total grants a)

  -- Deleting the one grant of a key takes its share away.
  pub booked-delete :
      (gid : String) (grants : List (String × Grant)) (g : Grant) (a : ℕ)
      → IsDistinct grants
      → load_grant gid grants ≡ some g
      → booked (delete_grant gid grants) a + share a g ≡ booked grants a
  unfolding booked delete_grant load_grant
  booked-delete gid [] g a d h = cc
  booked-delete gid ((k, g') ∷ grants) g a d h = elim (Bool-cases (str_eq k gid)) [
    | inl e ↦
        let gone = subst (λ j. load_grant j grants ≡ none) ((eq_iff k gid).0 e) d.0 in
        rw (e, delete-eq_of_none gid grants gone) (ground (arith, ap (share a)))
    | inr ne ↦ rw ne (ground (arith, booked-delete gid grants g a d.1))
  ]

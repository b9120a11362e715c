-- ===== src/TopologyAware/Sorter/Sorted.antt =====
-- `sort.Slice` for an order: a permutation in which no later element is before an earlier one.
use mathlib.Core.List.{Perm}
use mathlib.Core.List.Perm
use cloud_native.Prelude.{
  ℕ, Bool, true, false, ◌||◌, List, [], ◌∷◌, ◌≡◌, refl, ap, ◌∙◌, arith, ◌==◌, ==_iff, Bool-cases,
  inl, inr,
}
use cloud_native.TopologyAware.Filter.{contains}
use cloud_native.TopologyAware.Sorter.{insert_by, sort_slice}

contains-insert_by :
    (less : ℕ → ℕ → Bool) (x : ℕ) (ys : List ℕ) (a : ℕ)
    → contains (insert_by less x ys) a ≡ (x == a || contains ys a)
unfolding contains insert_by
contains-insert_by less x [] a = refl
contains-insert_by less x (y ∷ ys) a = ground (arith, contains-insert_by less x ys a)

pub contains-sort_slice :
    (less : ℕ → ℕ → Bool) (xs : List ℕ) (a : ℕ) → contains (sort_slice less xs) a ≡ contains xs a
unfolding contains sort_slice
contains-sort_slice less [] a = refl
contains-sort_slice less (x ∷ xs) a =
    ground (arith, contains-insert_by less x (sort_slice less xs) a, contains-sort_slice less xs a)

perm-insert_by : (less : ℕ → ℕ → Bool) (x : ℕ) (ys : List ℕ) → Perm (insert_by less x ys) (x ∷ ys)
unfolding insert_by
perm-insert_by less x [] = Perm.refl (x ∷ [])
perm-insert_by less x (y ∷ ys) = elim (Bool-cases (less y x)) [
  | inl before ↦ rw before (Perm.trans (Perm.cons y (perm-insert_by less x ys)) (Perm.swap x y ys))
  | inr after ↦ rw after (Perm.refl (x ∷ y ∷ ys))
]

pub perm-sort_slice : (less : ℕ → ℕ → Bool) (xs : List ℕ) → Perm (sort_slice less xs) xs
unfolding sort_slice
perm-sort_slice less [] = Perm.refl []
perm-sort_slice less (x ∷ xs) =
    Perm.trans (perm-insert_by less x (sort_slice less xs)) (Perm.cons x (perm-sort_slice less xs))

-- No element of the list is before `x`.
abbrev pub NoneBefore : (ℕ → ℕ → Bool) → ℕ → List ℕ → Type 0
NoneBefore less x [] = Unit {0}
NoneBefore less x (y ∷ ys) = (less y x ≡ false) × NoneBefore less x ys

abbrev pub IsSorted : (ℕ → ℕ → Bool) → List ℕ → Type 0
IsSorted less [] = Unit {0}
IsSorted less (x ∷ xs) = NoneBefore less x xs × IsSorted less xs

-- What `sort.Slice` asks of its argument: a strict weak order.
pub record IsStrictWeak (less : ℕ → ℕ → Bool) : Type 0 where
  pub asymm : (a b : ℕ) → less a b ≡ true → less b a ≡ false
  pub ge_trans : (a b c : ℕ) → less a b ≡ false → less b c ≡ false → less a c ≡ false

module _ (less : ℕ → ℕ → Bool) (weak : IsStrictWeak less) where
  NoneBefore-trans :
      (x y : ℕ) (zs : List ℕ) → less y x ≡ false → NoneBefore less y zs → NoneBefore less x zs
  NoneBefore-trans x y [] h n = tt
  NoneBefore-trans x y (z ∷ zs) h n = (weak.ge_trans z y x n.0 h, NoneBefore-trans x y zs h n.1)

  NoneBefore-insert_by :
      (x y : ℕ) (ys : List ℕ)
      → less x y ≡ false
      → NoneBefore less y ys
      → NoneBefore less y (insert_by less x ys)
  unfolding insert_by
  NoneBefore-insert_by x y [] h n = (h, tt)
  NoneBefore-insert_by x y (z ∷ zs) h n = elim (Bool-cases (less z x)) [
    | inl before ↦ rw before (n.0, NoneBefore-insert_by x y zs h n.1)
    | inr after ↦ rw after (h, n)
  ]

  IsSorted-insert_by :
      (x : ℕ) (ys : List ℕ) → IsSorted less ys → IsSorted less (insert_by less x ys)
  unfolding insert_by
  IsSorted-insert_by x [] s = (tt, tt)
  IsSorted-insert_by x (y ∷ ys) s = elim (Bool-cases (less y x)) [
    | inl before ↦
        rw before
          (NoneBefore-insert_by x y ys (weak.asymm y x before) s.0, IsSorted-insert_by x ys s.1)
    | inr after ↦ rw after ((after, NoneBefore-trans x y ys after s.0), s)
  ]

  pub IsSorted-sort_slice : (xs : List ℕ) → IsSorted less (sort_slice less xs)
  unfolding sort_slice
  IsSorted-sort_slice [] = tt
  IsSorted-sort_slice (x ∷ xs) = IsSorted-insert_by x (sort_slice less xs) (IsSorted-sort_slice xs)

module _ (less less' : ℕ → ℕ → Bool) where
  insert_by-eq :
      (x : ℕ) (ys : List ℕ)
      → ((y : ℕ) → contains ys y ≡ true → less y x ≡ less' y x)
      → insert_by less x ys ≡ insert_by less' x ys
  unfolding insert_by contains
  insert_by-eq x [] h = refl
  insert_by-eq x (y ∷ ys) h =
      rw (h y (ground (arith, ==_iff y y)), insert_by-eq x ys (λ z i. h z (ground arith)))

  -- Orders that agree on a list sort it alike.
  pub sort_slice-eq :
      (xs : List ℕ)
      → ((y x : ℕ) → contains xs y ≡ true → contains xs x ≡ true → less y x ≡ less' y x)
      → sort_slice less xs ≡ sort_slice less' xs
  unfolding sort_slice contains
  sort_slice-eq [] h = refl
  sort_slice-eq (x ∷ xs) h =
      insert_by-eq x (sort_slice less xs)
        (λ y i. h y x (ground (arith, contains-sort_slice less xs y)) (ground (arith, ==_iff x x)))
      ∙ ap (insert_by less' x) (sort_slice-eq xs (λ y z i j. h y z (ground arith) (ground arith)))

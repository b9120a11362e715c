-- ===== src/Cache/Table.antt =====
-- A Go map with text keys, as a list of entries of which the first with a key counts.
use cloud_native.Prelude.{
  true, false, Option, none, some, List, [], ◌∷◌, ◌≡◌, refl, ap, ◌∙◌, arith, if◌then◌else◌,
  Bool-cases, inl, inr,
}
use cloud_native.TopologyAware.Request.Devices.{Text}
use cloud_native.TopologyAware.Filter.{text_eq}
use cloud_native.PcoreBinding.Topology.Distinct.{text_eq_refl, text_eq→eq, text_eq_sym}

text_eq_trans_false :
    (a b c : Text) → text_eq a b ≡ true → text_eq b c ≡ false → text_eq a c ≡ false
text_eq_trans_false a b c same other = ap (λ t. text_eq t c) (text_eq→eq a b same) ∙ other

module _ {ℓ} {A : Type ℓ} where
  -- `m[key]`
  unfoldable pub find : List (Text × A) → Text → Option A
  find [] key = none
  find ((k, v) ∷ m) key = let rest = find m key in if text_eq k key then some v else rest

  -- `delete(m, key)`
  unfoldable pub erase : List (Text × A) → Text → List (Text × A)
  erase [] key = []
  erase ((k, v) ∷ m) key = let rest = erase m key in if text_eq k key then rest else (k, v) ∷ rest

  -- `m[key] = v`
  unfoldable pub put : List (Text × A) → Text → A → List (Text × A)
  unfolding erase
  put m key v = (key, v) ∷ erase m key

  pub find-erase :
      (m : List (Text × A)) (key p : Text)
      → find (erase m key) p ≡ (if text_eq key p then none else find m p)
  unfolding find erase
  find-erase [] key p = elim (Bool-cases (text_eq key p)) [
    | inl same ↦ rw same refl
    | inr other ↦ rw other refl
  ]
  find-erase ((k, v) ∷ m) key p = elim (Bool-cases (text_eq k key)) [
    | inl same ↦ elim (Bool-cases (text_eq key p)) [
      | inl hit ↦ ground (arith, find-erase m key p)
      | inr other ↦ ground (arith, find-erase m key p, text_eq_trans_false k key p same other)
    ]
    | inr other ↦ elim (Bool-cases (text_eq k p)) [
      | inl hit ↦ ground (
        arith,
        find-erase m key p,
        ap (λ t. text_eq t key) (text_eq→eq k p hit),
        text_eq_sym key p,
      )
      | inr miss ↦ ground (arith, find-erase m key p)
    ]
  ]

  pub find-put :
      (m : List (Text × A)) (key p : Text) (v : A)
      → find (put m key v) p ≡ (if text_eq key p then some v else find m p)
  unfolding find put
  find-put m key p v = ground (arith, find-erase m key p)

  -- The entries of `m` are those that lookups in `t` find.
  abbrev pub AreFound : List (Text × A) → List (Text × A) → Type ℓ
  AreFound t [] = Unit {ℓ}
  AreFound t ((k, v) ∷ m) = (find t k ≡ some v) × AreFound t m

  -- No entry hides another, so a loop over the entries sees those that lookups find.
  abbrev pub IsTable : List (Text × A) → Type ℓ
  IsTable m = AreFound m m

  AreFound-erase_in :
      (t u m : List (Text × A)) (key : Text)
      → ((k : Text) → text_eq k key ≡ false → find u k ≡ find t k)
      → AreFound t m
      → AreFound u (erase m key)
  unfolding erase
  AreFound-erase_in t u [] key kept h = tt
  AreFound-erase_in t u ((k, v) ∷ m) key kept (found, h) = elim (Bool-cases (text_eq k key)) [
    | inl same ↦ rw same (AreFound-erase_in t u m key kept h)
    | inr other ↦ rw other (kept k other ∙ found, AreFound-erase_in t u m key kept h)
  ]

  pub erase-IsTable : (m : List (Text × A)) (key : Text) → IsTable m → IsTable (erase m key)
  erase-IsTable m key h =
      AreFound-erase_in m (erase m key) m key
        (λ k other. find-erase m key k ∙ rw (text_eq_sym key k, other) refl) h

  pub put-IsTable : (m : List (Text × A)) (key : Text) (v : A) → IsTable m → IsTable (put m key v)
  unfolding put
  put-IsTable m key v h = (
    find-put m key key v ∙ rw (text_eq_refl key) refl,
    AreFound-erase_in m (put m key v) m key
        (λ k other. find-put m key k v ∙ rw (text_eq_sym key k, other) refl) h,
  )

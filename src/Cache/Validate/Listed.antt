-- ===== src/Cache/Validate/Listed.antt =====
-- What the search for stale containers takes for a container that the runtime has: its id and a
-- listed one agree up to the end of the shorter.
use cloud_native.Prelude.{
  true, List, [], ◌∷◌, ◌++◌, ◌≡◌, ◌↔◌, ◌⊎◌, inl, inr, refl, ap₂, subst, ◌∙◌, arith, Bool-cases,
  ==_iff,
}
use mathlib.Core.List.{append-nil}
use cloud_native.TopologyAware.Request.Devices.{Text}
use cloud_native.TopologyAware.Filter.{text_eq}
use cloud_native.PcoreBinding.Topology.{has_text}
use cloud_native.PcoreBinding.Topology.Distinct.{text_eq→eq}
use cloud_native.Cache.Pods.{has_prefix}
use cloud_native.Cache.Validate.{is_known, has_prefix_match}

abbrev pub IsPrefix : Text → Text → Type 0
IsPrefix p s = (t : Text) × (p ++ t ≡ s)

-- Some listed id is a prefix of `k`, or `k` is one of it.
abbrev pub IsListed : List Text → Text → Type 0
IsListed [] k = ⊥
IsListed (id ∷ ids) k = (IsPrefix id k ⊎ IsPrefix k id) ⊎ IsListed ids k

has_prefix→IsPrefix : (s p : Text) → has_prefix s p ≡ true → IsPrefix p s
unfolding has_prefix
has_prefix→IsPrefix s [] h = (s, refl)
has_prefix→IsPrefix [] (c ∷ p) h = cc
has_prefix→IsPrefix (d ∷ s) (c ∷ p) h =
    let same : c ≡ d = ground (arith, ==_iff d c) in
    let (t, e) = has_prefix→IsPrefix s p (ground arith) in (t, ap₂ (λ a b. a ∷ b) same e)

has_prefix-append : (p t : Text) → has_prefix (p ++ t) p ≡ true
unfolding has_prefix
has_prefix-append [] t = refl
has_prefix-append (c ∷ p) t = ground (arith, has_prefix-append p t)

IsPrefix→has_prefix : (s p : Text) → IsPrefix p s → has_prefix s p ≡ true
IsPrefix→has_prefix s p (t, e) = subst (λ s. has_prefix s p ≡ true) e (has_prefix-append p t)

has_text→IsListed : (ids : List Text) (k : Text) → has_text ids k ≡ true → IsListed ids k
unfolding has_text
has_text→IsListed [] k h = cc
has_text→IsListed (id ∷ ids) k h = elim (Bool-cases (text_eq id k)) [
  | inl same ↦ inl (inl ([], append-nil id ∙ text_eq→eq id k same))
  | inr other ↦ inr (has_text→IsListed ids k (ground arith))
]

has_prefix_match→IsListed :
    (ids : List Text) (k : Text) → has_prefix_match ids k ≡ true → IsListed ids k
unfolding has_prefix_match
has_prefix_match→IsListed [] k h = cc
has_prefix_match→IsListed (id ∷ ids) k h = elim (Bool-cases (has_prefix id k)) [
  | inl long ↦ inl (inr (has_prefix→IsPrefix id k long))
  | inr other ↦ elim (Bool-cases (has_prefix k id)) [
    | inl short ↦ inl (inl (has_prefix→IsPrefix k id short))
    | inr neither ↦ inr (has_prefix_match→IsListed ids k (ground arith))
  ]
]

IsListed→has_prefix_match :
    (ids : List Text) (k : Text) → IsListed ids k → has_prefix_match ids k ≡ true
unfolding has_prefix_match
IsListed→has_prefix_match [] k h = absurd h
IsListed→has_prefix_match (id ∷ ids) k (inl (inl short)) =
    ground (arith, IsPrefix→has_prefix k id short)
IsListed→has_prefix_match (id ∷ ids) k (inl (inr long)) =
    ground (arith, IsPrefix→has_prefix id k long)
IsListed→has_prefix_match (id ∷ ids) k (inr later) =
    ground (arith, IsListed→has_prefix_match ids k later)

pub is_known_iff : (ids : List Text) (k : Text) → (is_known ids k ≡ true) ↔ IsListed ids k
unfolding is_known
is_known_iff ids k = (
  λ h. elim (Bool-cases (has_text ids k)) [
    | inl same ↦ has_text→IsListed ids k same
    | inr other ↦ has_prefix_match→IsListed ids k (ground arith)
  ],
  λ h. ground (arith, IsListed→has_prefix_match ids k h),
)

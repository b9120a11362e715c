-- ===== src/PcoreBinding/Topology/Distinct.antt =====
-- DiscoverSiblingPairs of topology/siblings.go finds each pair once.
use cloud_native.Prelude.{
  true, false, Option, some, List, [], ◌∷◌, ◌≡◌, refl, ap, ◌∙◌, subst, arith, Bool-cases,
  Option-cases, inl, inr,
}
use cloud_native.TopologyAware.Request.Devices.{Text}
use cloud_native.TopologyAware.Filter.{text_eq}
use cloud_native.PcoreBinding.Topology.{
  SiblingPair, pair_string, has_text, pair_in, collect_pair, collect_pairs, insert_pair, pair_less,
  sort_pairs, discover_sibling_pairs,
}

pub text_eq_refl : (s : Text) → text_eq s s ≡ true
unfolding text_eq
text_eq_refl [] = refl
text_eq_refl (c ∷ s) = ground (arith, text_eq_refl s)

pub text_eq→eq : (s t : Text) → text_eq s t ≡ true → s ≡ t
unfolding text_eq
text_eq→eq [] [] h = refl
text_eq→eq [] (d ∷ t) h = cc
text_eq→eq (c ∷ s) [] h = cc
text_eq→eq (c ∷ s) (d ∷ t) h = ground (arith, text_eq→eq s t)

pub text_eq_sym : (s t : Text) → text_eq s t ≡ text_eq t s
unfolding text_eq
text_eq_sym [] [] = refl
text_eq_sym [] (d ∷ t) = refl
text_eq_sym (c ∷ s) [] = refl
text_eq_sym (c ∷ s) (d ∷ t) = ground (arith, text_eq_sym s t)

-- The texts of pairs
abbrev pub texts : List SiblingPair → List Text
texts [] = []
texts (p ∷ ps) = pair_string p ∷ texts ps

abbrev pub NoRepeat : List Text → Type 0
NoRepeat [] = Unit {0}
NoRepeat (t ∷ ts) = (has_text ts t ≡ false) × NoRepeat ts

-- The pairs have different texts, and none of the texts seen
abbrev IsNew : List Text → List SiblingPair → Type 0
IsNew seen out =
    NoRepeat (texts out) × ((t : Text) → has_text seen t ≡ true → has_text (texts out) t ≡ false)

collect_pairs-IsNew :
    (seen : List Text) (files : List (Option Text)) → IsNew seen (collect_pairs seen files)
unfolding collect_pairs collect_pair has_text
collect_pairs-IsNew seen [] = (_, λ t h. refl)
collect_pairs-IsNew seen (file ∷ files) = elim (Option-cases (pair_in file)) [
  | inl nothing ↦ rw nothing (collect_pairs-IsNew seen files)
  | inr (pair, found) ↦ elim (Bool-cases (has_text seen (pair_string pair))) [
    | inl known ↦ rw (found, known) (collect_pairs-IsNew seen files)
    | inr new ↦
        let s = pair_string pair in
        let (different, unseen) = collect_pairs-IsNew (s ∷ seen) files in
        rw (found, new)
          (
            (unseen s (rw (text_eq_refl s) refl), different),
            λ t h. elim (Bool-cases (text_eq s t)) [
              | inl same ↦ ground (arith, ap (λ t. has_text seen t) (text_eq→eq s t same))
              | inr other ↦ rw other (unseen t (rw (other, h) refl))
            ],
          )
  ]
]

has_text-insert_pair :
    (t : Text) (p : SiblingPair) (ps : List SiblingPair)
    → has_text (texts (insert_pair p ps)) t ≡ has_text (texts (p ∷ ps)) t
unfolding insert_pair has_text
has_text-insert_pair t p [] = refl
has_text-insert_pair t p (q ∷ ps) = ground (arith, has_text-insert_pair t p ps)

NoRepeat-insert_pair :
    (p : SiblingPair) (ps : List SiblingPair)
    → has_text (texts ps) (pair_string p) ≡ false
    → NoRepeat (texts ps)
    → NoRepeat (texts (insert_pair p ps))
unfolding insert_pair has_text
NoRepeat-insert_pair p [] new different = (refl, _)
NoRepeat-insert_pair p (q ∷ ps) new different = elim (Bool-cases (pair_less q p)) [
  | inr before ↦ rw before (new, different)
  | inl after ↦
      let others : has_text (texts ps) (pair_string p) ≡ false = ground (arith, new) in
      rw after (
        ground (
          arith,
          new,
          different.0,
          has_text-insert_pair (pair_string q) p ps,
          text_eq_sym (pair_string p) (pair_string q),
        ),
        NoRepeat-insert_pair p ps others different.1,
      )
]

has_text-sort_pairs :
    (t : Text) (ps : List SiblingPair) → has_text (texts (sort_pairs ps)) t ≡ has_text (texts ps) t
unfolding sort_pairs has_text
has_text-sort_pairs t [] = refl
has_text-sort_pairs t (p ∷ ps) =
    ground (arith, has_text-insert_pair t p (sort_pairs ps), has_text-sort_pairs t ps)

NoRepeat-sort_pairs :
    (ps : List SiblingPair) → NoRepeat (texts ps) → NoRepeat (texts (sort_pairs ps))
unfolding sort_pairs
NoRepeat-sort_pairs [] h = _
NoRepeat-sort_pairs (p ∷ ps) h =
    NoRepeat-insert_pair p (sort_pairs ps) (has_text-sort_pairs (pair_string p) ps ∙ h.0)
      (NoRepeat-sort_pairs ps h.1)

-- The pairs that DiscoverSiblingPairs returns have different texts, whatever the files hold.
pub discover_sibling_pairs-NoRepeat :
    (files : List (Option Text)) (out : List SiblingPair)
    → discover_sibling_pairs files ≡ some out
    → NoRepeat (texts out)
unfolding discover_sibling_pairs
discover_sibling_pairs-NoRepeat files out h =
    let whole : sort_pairs (collect_pairs [] files) ≡ out = ground arith in
    subst (λ ps. NoRepeat (texts ps)) whole
      (NoRepeat-sort_pairs (collect_pairs [] files) (collect_pairs-IsNew [] files).0)

-- ===== src/PcoreBinding/Agent/Choice.antt =====
-- targetCpuset of plugin/agent.go: which sibling pair a pod gets.
use cloud_native.Prelude.{
  Bool, true, false, ◌&&◌, List, [], ◌∷◌, ◌++◌, ◌≡◌, inl, inr, refl, arith, ap, sym, ◌∙◌,
  Bool-cases,
}
use cloud_native.TopologyAware.Request.Devices.{Text, codes, is_empty}
use cloud_native.TopologyAware.Filter.{print_int, text_eq}
use cloud_native.PcoreBinding.Topology.{SiblingPair, pair_string, has_text}
use cloud_native.PcoreBinding.Topology.Distinct.{text_eq_refl, text_eq→eq, text_eq_sym, texts}
use cloud_native.PcoreBinding.Agent.{
  Agent, normalize_cpuset, pair_set, kept_pair, free_pair, target_cpuset,
}

append-is_empty : (s t u : Text) → is_empty (s ++ codes "," ++ t) ≡ false
append-is_empty [] t u = refl
append-is_empty (c ∷ s) t u = refl

pair_string-is_empty : (p : SiblingPair) → is_empty (pair_string p) ≡ false
unfolding pair_string
pair_string-is_empty p = ground (
  arith,
  append-is_empty (print_int p.cpu0) (print_int p.cpu1) [],
  append-is_empty (print_int p.cpu1) (print_int p.cpu0) [],
)

-- A text of a pair that no pod has taken
abbrev pub IsFree : List Text → List SiblingPair → Text → Type 0
IsFree occupied pairs t =
    (has_text (texts pairs) t ≡ true) × (has_text occupied (normalize_cpuset t) ≡ false)

kept_pair-IsFree :
    (current_set : Text) (occupied : List Text) (pairs : List SiblingPair)
    → is_empty (kept_pair current_set occupied pairs) ≡ false
    → IsFree occupied pairs (kept_pair current_set occupied pairs)
unfolding kept_pair has_text
kept_pair-IsFree current_set occupied [] h = cc
kept_pair-IsFree current_set occupied (p ∷ ps) h =
    ground (arith, text_eq_refl (pair_string p), kept_pair-IsFree current_set occupied ps)

free_pair-IsFree :
    (occupied : List Text) (pairs : List SiblingPair)
    → is_empty (free_pair occupied pairs) ≡ false
    → IsFree occupied pairs (free_pair occupied pairs)
unfolding free_pair has_text
free_pair-IsFree occupied [] h = cc
free_pair-IsFree occupied (p ∷ ps) h =
    ground (arith, text_eq_refl (pair_string p), free_pair-IsFree occupied ps)

-- A text that targetCpuset returns, if it is not empty, is that of a sibling pair whose set no pod
-- of the pass has taken.
pub target_cpuset-IsFree :
    (a : Agent) (current : Text) (occupied : List Text)
    → is_empty (target_cpuset a current occupied) ≡ false
    → IsFree occupied a.sibling_pairs (target_cpuset a current occupied)
unfolding target_cpuset
target_cpuset-IsFree a current occupied h = ground (
  arith,
  kept_pair-IsFree (normalize_cpuset current) occupied a.sibling_pairs,
  free_pair-IsFree occupied a.sibling_pairs,
)

-- The normal forms of the pairs
abbrev pub sets : List SiblingPair → List Text
sets [] = []
sets (p ∷ ps) = pair_set p ∷ sets ps

abbrev pub all_occupied : List Text → List SiblingPair → Bool
all_occupied occupied [] = true
all_occupied occupied (p ∷ ps) = has_text occupied (pair_set p) && all_occupied occupied ps

is_empty-free_pair :
    (occupied : List Text) (pairs : List SiblingPair)
    → is_empty (free_pair occupied pairs) ≡ all_occupied occupied pairs
unfolding free_pair
is_empty-free_pair occupied [] = refl
is_empty-free_pair occupied (p ∷ ps) =
    ground (arith, pair_string-is_empty p, is_empty-free_pair occupied ps)

is_empty-kept_pair :
    (current_set : Text) (occupied : List Text) (pairs : List SiblingPair)
    → all_occupied occupied pairs ≡ true
    → is_empty (kept_pair current_set occupied pairs) ≡ true
unfolding kept_pair
is_empty-kept_pair current_set occupied [] h = refl
is_empty-kept_pair current_set occupied (p ∷ ps) h =
    ground (arith, is_empty-kept_pair current_set occupied ps)

-- targetCpuset returns the empty text exactly when the sets of all sibling pairs are taken.
pub is_empty-target_cpuset :
    (a : Agent) (current : Text) (occupied : List Text)
    → is_empty (target_cpuset a current occupied) ≡ all_occupied occupied a.sibling_pairs
unfolding target_cpuset
is_empty-target_cpuset a current occupied = ground (
  arith,
  is_empty-free_pair occupied a.sibling_pairs,
  is_empty-kept_pair (normalize_cpuset current) occupied a.sibling_pairs,
)

kept_pair-eq :
    (current_set : Text) (occupied : List Text) (pairs : List SiblingPair)
    → has_text (sets pairs) current_set ≡ true
    → has_text occupied current_set ≡ false
    → (is_empty (kept_pair current_set occupied pairs) ≡ false)
      × (normalize_cpuset (kept_pair current_set occupied pairs) ≡ current_set)
unfolding kept_pair has_text
kept_pair-eq current_set occupied [] h f = cc
kept_pair-eq current_set occupied (p ∷ ps) h f =
    elim (Bool-cases (text_eq current_set (pair_set p))) [
      | inl same ↦
          let e = text_eq→eq current_set (pair_set p) same in
          let free : has_text occupied (pair_set p) ≡ false =
            ap (λ t. has_text occupied t) (sym e) ∙ f in
          rw (same, free) (pair_string-is_empty p, sym e)
      | inr other ↦ rw other (
          kept_pair-eq current_set occupied ps
            (ground (arith, text_eq_sym current_set (pair_set p))) f)
    ]

-- A pod whose set of CPUs is that of a sibling pair which no pod of the pass has taken keeps its
-- set.
pub target_cpuset-keeps :
    (a : Agent) (current : Text) (occupied : List Text)
    → has_text (sets a.sibling_pairs) (normalize_cpuset current) ≡ true
    → has_text occupied (normalize_cpuset current) ≡ false
    → normalize_cpuset (target_cpuset a current occupied) ≡ normalize_cpuset current
unfolding target_cpuset
target_cpuset-keeps a current occupied h f =
    let (some_text, e) = kept_pair-eq (normalize_cpuset current) occupied a.sibling_pairs h f in
    rw some_text e

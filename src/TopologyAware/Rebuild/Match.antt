-- ===== src/TopologyAware/Rebuild/Match.antt =====
-- findNodeByCPUSet of state_rebuild.go: a deepest node whose CPUs hold the set.
use cloud_native.Prelude.{
  ℕ, true, false, String, Option, none, some, List, [], ◌∷◌, ◌≡◌, ◌⊎◌, inl, inr, Bool-cases, ap,
  subst, arith, ==_iff,
}
use cloud_native.Word64.{slt}
use cloud_native.TopologyAware.CpuSets.{CpuSetLib}
use cloud_native.TopologyAware.Tree.{root_distance}
use cloud_native.TopologyAware.Policy.{Policy}
use cloud_native.TopologyAware.Filter.{contains}
use cloud_native.TopologyAware.Rebuild.{best_match, find_node_by_cpu_set}

module _ (lib : CpuSetLib) (p : Policy lib) (cpus : lib.CpuSet) where
  -- The node `x` is found, or a node at least as deep.
  abbrev Beats : Option ℕ → ℕ → Type 0
  Beats none x = ⊥
  Beats (some r) x = slt (root_distance lib p.nodes r) (root_distance lib p.nodes x) ≡ false

  best_match-mem :
      (best : Option ℕ) (pools : List ℕ) (r : ℕ)
      → best_match lib p cpus best pools ≡ some r
      → (best ≡ some r)
        ⊎ ((contains pools r ≡ true) × (lib.is_subset_of cpus (p.free r).sharable ≡ true))
  unfolding best_match contains
  best_match-mem none [] r h = ground arith
  best_match-mem (some b) [] r h = ground arith
  best_match-mem none (y ∷ pools) r h =
      ground (arith, best_match-mem none pools r, best_match-mem (some y) pools r, ==_iff y r)
  best_match-mem (some b) (y ∷ pools) r h =
      ground (arith, best_match-mem (some b) pools r, best_match-mem (some y) pools r, ==_iff y r)

  best_match-ge :
      (b : ℕ) (pools : List ℕ) (x : ℕ)
      → slt (root_distance lib p.nodes b) (root_distance lib p.nodes x) ≡ false
      → Beats (best_match lib p cpus (some b) pools) x
  unfolding best_match
  best_match-ge b [] x h = h
  best_match-ge b (y ∷ pools) x h = ground (arith, best_match-ge b pools x, best_match-ge y pools x)

  best_match-max :
      (best : Option ℕ) (pools : List ℕ) (x : ℕ)
      → contains pools x ≡ true
      → lib.is_subset_of cpus (p.free x).sharable ≡ true
      → Beats (best_match lib p cpus best pools) x
  unfolding best_match contains
  best_match-max best [] x i h = absurd (ground arith)
  best_match-max none (y ∷ pools) x i h = ground (
    arith,
    best_match-ge y pools x,
    best_match-max none pools x,
    best_match-max (some y) pools x,
    ==_iff y x,
    ap p.free,
  )
  best_match-max (some b) (y ∷ pools) x i h = ground (
    arith,
    best_match-ge y pools x,
    best_match-ge b pools x,
    best_match-max (some b) pools x,
    best_match-max (some y) pools x,
    ==_iff y x,
    ap p.free,
  )

  -- `r` is a pool whose shared CPUs include the set, and no such pool is deeper.
  abbrev pub IsDeepestWith : ℕ → Type 0
  IsDeepestWith r =
      (contains p.pools r ≡ true)
      × (lib.is_subset_of cpus (p.free r).sharable ≡ true)
      × ((x : ℕ)
          → contains p.pools x ≡ true
          → lib.is_subset_of cpus (p.free x).sharable ≡ true
          → slt (root_distance lib p.nodes r) (root_distance lib p.nodes x) ≡ false)

  -- The node that findNodeByCPUSet returns is a pool whose shared CPUs include the set read from
  -- the text, and no such pool is deeper.
  pub find_node_by_cpu_set-IsDeepestWith :
      (s : String) (r : ℕ)
      → lib.parse s ≡ some cpus
      → find_node_by_cpu_set lib p s ≡ some r
      → IsDeepestWith r
  unfolding find_node_by_cpu_set
  find_node_by_cpu_set-IsDeepestWith s r e h =
      let found : best_match lib p cpus none p.pools ≡ some r = ground (arith, e, h) in
      let m = best_match-mem none p.pools r found in
      (
        ground arith,
        ground arith,
        λ x i c. subst (λ (o : Option ℕ). Beats o x) found (best_match-max none p.pools x i c),
      )

  -- If findNodeByCPUSet returns nil on a text that reads as a set, the shared CPUs of no pool
  -- include the set.
  pub find_node_by_cpu_set-none :
      (s : String) (x : ℕ)
      → lib.parse s ≡ some cpus
      → find_node_by_cpu_set lib p s ≡ none
      → contains p.pools x ≡ true
      → lib.is_subset_of cpus (p.free x).sharable ≡ false
  unfolding find_node_by_cpu_set
  find_node_by_cpu_set-none s x e h i =
      elim (Bool-cases (lib.is_subset_of cpus (p.free x).sharable)) [
        | inr outside ↦ outside
        | inl inside ↦
            let missing : best_match lib p cpus none p.pools ≡ none = ground (arith, e, h) in
            absurd
              (subst (λ (o : Option ℕ). Beats o x) missing (best_match-max none p.pools x i inside))
      ]

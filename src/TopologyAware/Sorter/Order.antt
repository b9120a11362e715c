-- ===== src/TopologyAware/Sorter/Order.antt =====
-- sortPoolsByScore of pool_sorter.go sorts by the key, whose order is total on pools of distinct ids.
use mathlib.Core.List.{Perm}
use cloud_native.Prelude.{
  ℕ, ◌^◌, ◌<◌, Bool, true, false, none, some, List, [], ◌∷◌, ◌≡◌, ◌⊎◌, inr, refl, sym, ap, subst,
  arith, ==_iff,
}
use cloud_native.TopologyAware.CpuSets.{CpuSetLib}
use cloud_native.TopologyAware.Request.{Request}
use cloud_native.TopologyAware.Tree.{node_id}
use cloud_native.TopologyAware.Policy.{Policy, score_of}
use cloud_native.TopologyAware.Filter.{contains}
use cloud_native.TopologyAware.Sorter.{lookup_score, score_map, compare_nodes, sort_pools_by_score}
use cloud_native.TopologyAware.Sorter.Lex.{
  lex_lt, lex_lt-asymm, lex_ge_trans, lex_lt_trans, lex_lt_irrefl,
}
use cloud_native.TopologyAware.Sorter.Key.{key, compare_nodes-eq-lex_lt}
use cloud_native.TopologyAware.Sorter.Sorted.{
  IsSorted, IsStrictWeak, perm-sort_slice, IsSorted-sort_slice, sort_slice-eq,
}

module _ (lib : CpuSetLib) (p : Policy lib) (req : Request) (affinity : List (ℕ × ℕ)) where
  -- Pools of one id are one pool, and the ids are values of `int`.
  pub record IsIdentified (pools : List ℕ) : Type 0 where
    pub same :
        (x y : ℕ)
        → contains pools x ≡ true
        → contains pools y ≡ true
        → node_id lib p.nodes x ≡ node_id lib p.nodes y
        → x ≡ y
    pub word : (x : ℕ) → contains pools x ≡ true → node_id lib p.nodes x < 2 ^ 64

  -- The entry of a node in the scores of some pools, if it has one, is its score.
  lookup-score_map :
      (pools : List ℕ) (r : ℕ)
      → ((x : ℕ) → contains pools x ≡ true → node_id lib p.nodes x ≡ node_id lib p.nodes r → x ≡ r)
      → (lookup_score (node_id lib p.nodes r) (score_map lib p req pools)
          ≡ some (score_of lib p req r))
        ⊎ ((lookup_score (node_id lib p.nodes r) (score_map lib p req pools) ≡ none)
            × (contains pools r ≡ false))
  unfolding lookup_score score_map contains
  lookup-score_map [] r h = inr (refl, refl)
  lookup-score_map (x ∷ pools) r h =
      let rest = lookup-score_map pools r (λ y i. h y (ground arith)) in
      let here = h x (ground (arith, ==_iff x x)) in
      ground (
        arith,
        rest,
        here,
        ap (λ (k : ℕ). score_of lib p req k),
        ap (λ (k : ℕ). node_id lib p.nodes k),
      )

  lookup_score-some :
      (pools : List ℕ) (r : ℕ)
      → IsIdentified pools
      → contains pools r ≡ true
      → lookup_score (node_id lib p.nodes r) (score_map lib p req pools)
        ≡ some (score_of lib p req r)
  lookup_score-some pools r w i =
      ground (arith, lookup-score_map pools r (λ x j e. w.same x r j i e))

  -- The order of the keys
  abbrev pub key_lt : ℕ → ℕ → Bool
  key_lt a b = lex_lt (key lib p req affinity a) (key lib p req affinity b)

  key_lt-IsStrictWeak : IsStrictWeak key_lt
  unfolding key
  key_lt-IsStrictWeak = record {
    asymm = λ a b h. lex_lt-asymm (key lib p req affinity a) (key lib p req affinity b) h;
    ge_trans = λ a b c h k.
        lex_ge_trans (key lib p req affinity a) (key lib p req affinity b)
          (key lib p req affinity c) refl refl h k;
  }

  -- Among pools with different node numbers sortPoolsByScore returns a rearrangement of the pools
  -- that is sorted by the key of seven numbers.
  pub sort_pools_by_score-IsSorted :
      (pools : List ℕ)
      → IsIdentified pools
      → Perm (sort_pools_by_score lib p req affinity pools) pools
        × IsSorted key_lt (sort_pools_by_score lib p req affinity pools)
  unfolding sort_pools_by_score
  sort_pools_by_score-IsSorted pools w =
      let less = compare_nodes lib p req (score_map lib p req pools) affinity in
      (
        perm-sort_slice less pools,
        subst (IsSorted key_lt)
            (sym (
              sort_slice-eq less key_lt pools (λ y x i j.
                compare_nodes-eq-lex_lt lib p req affinity (score_map lib p req pools) y x
                  (lookup_score-some pools y w i) (lookup_score-some pools x w j))))
            (IsSorted-sort_slice key_lt key_lt-IsStrictWeak pools),
      )

  key_lt-connex :
      (a b : ℕ)
      → node_id lib p.nodes a < 2 ^ 64
      → node_id lib p.nodes b < 2 ^ 64
      → key_lt a b ≡ false
      → key_lt b a ≡ false
      → node_id lib p.nodes a ≡ node_id lib p.nodes b
  unfolding key lex_lt
  key_lt-connex a b wa wb h k = ground arith

  compare_nodes-key_lt :
      (pools : List ℕ) (a b : ℕ)
      → IsIdentified pools
      → contains pools a ≡ true
      → contains pools b ≡ true
      → compare_nodes lib p req (score_map lib p req pools) affinity a b ≡ key_lt a b
  compare_nodes-key_lt pools a b w ia ib =
      compare_nodes-eq-lex_lt lib p req affinity (score_map lib p req pools) a b
        (lookup_score-some pools a w ia) (lookup_score-some pools b w ib)

  -- Among pools with different node numbers compareNodes is a strict total order, as sort.Slice
  -- wants it: irreflexive, total and transitive.
  pub compare_nodes-total :
      (pools : List ℕ) (a b c : ℕ)
      → IsIdentified pools
      → contains pools a ≡ true
      → contains pools b ≡ true
      → contains pools c ≡ true
      → let less = compare_nodes lib p req (score_map lib p req pools) affinity in
        (less a a ≡ false)
        × ((less a b ≡ true) ⊎ (less b a ≡ true) ⊎ (a ≡ b))
        × ((less a b ≡ false) ⊎ (less b c ≡ false) ⊎ (less a c ≡ true))
  compare_nodes-total pools a b c w ia ib ic =
      let k = key lib p req affinity in
      ground (
        arith,
        compare_nodes-key_lt pools a a w ia ia,
        compare_nodes-key_lt pools a b w ia ib,
        compare_nodes-key_lt pools b a w ib ia,
        compare_nodes-key_lt pools b c w ib ic,
        compare_nodes-key_lt pools a c w ia ic,
        lex_lt_irrefl (k a),
        lex_lt_trans (k a) (k b) (k c),
        key_lt-connex a b (w.word a ia) (w.word b ib),
        w.same a b ia ib,
      )

-- ===== src/TopologyAware/Propagate/Chain.antt =====
-- What the loop of resource_propagator.go does at each node.
use cloud_native.Prelude.{
  ℕ, zero, suc, ◌≤◌, ◌<◌, Bool, true, false, not, ◌&&◌, Option, none, some, ◌≡◌, refl, ap, inl, inr,
  arith, ◌==◌, Option-cases, if◌then◌else◌,
}
use cloud_native.TopologyAware.CpuSets.{CpuSetLib}
use cloud_native.TopologyAware.Supply.{Grant}
use cloud_native.TopologyAware.Tree.{Nodes, Free, parent_of, IsOrdered, on_chain, covers}
use cloud_native.TopologyAware.Propagate.{
  set_free, update_parent_resource, propagate_from, propagate_resource_to_parent,
}

module _ (lib : CpuSetLib) (nodes : Nodes lib) (ordered : IsOrdered lib nodes) where
  on_chain-none : (f a : ℕ) → on_chain lib f nodes none a ≡ false
  unfolding on_chain
  on_chain-none zero a = refl
  on_chain-none (suc f) a = refl

  -- The way up from `p` meets only nodes up to `p`.
  pub on_chain-le :
      (f : ℕ) (o : Option ℕ) (a p : ℕ) → o ≡ some p → on_chain lib f nodes o a ≡ true → a ≤ p
  unfolding on_chain
  on_chain-le zero o a p e h = cc
  on_chain-le (suc f) none a p e h = cc
  on_chain-le (suc f) (some r) a p e h = elim (Option-cases (parent_of lib nodes r)) [
    | inl top ↦
        ground (arith, ap (λ (o : Option ℕ). on_chain lib f nodes o a) top, on_chain-none f a)
    | inr (q, eq) ↦
        ground (arith, ordered.parent_lt r q eq, on_chain-le f (parent_of lib nodes r) a q eq)
  ]

  pub above_lt : (f : ℕ) (r a : ℕ) → on_chain lib f nodes (parent_of lib nodes r) a ≡ true → a < r
  above_lt f r a h = elim (Option-cases (parent_of lib nodes r)) [
    | inl top ↦ cc (ap (λ (o : Option ℕ). on_chain lib f nodes o a) top, on_chain-none f a)
    | inr (q, eq) ↦
        omega (arith, ordered.parent_lt r q eq, on_chain-le f (parent_of lib nodes r) a q eq h)
  ]

  pub propagate_from-at :
      (f : ℕ) (o : Option ℕ) (g : Grant) (b : Bool) (free : Free lib) (a : ℕ)
      → propagate_from lib f nodes o g b free a
        ≡ (if on_chain lib f nodes o a then update_parent_resource lib (free a) g b else free a)
  unfolding on_chain propagate_from
  propagate_from-at zero o g b free a = refl
  propagate_from-at (suc f) none g b free a = refl
  propagate_from-at (suc f) (some r) g b free a = ground (
    arith,
    above_lt f r a,
    propagate_from-at f (parent_of lib nodes r) g b
        (set_free lib free r (update_parent_resource lib (free r) g b)) a,
  )

  -- On an ordered list of nodes propagateResourceToParent changes a node exactly when it stands
  -- strictly above the node of the grant, once, by updateParentResource; each other supply stays as
  -- it was.
  pub propagate_resource_to_parent-at :
      (g : Grant) (is_allocation : Bool) (free : Free lib) (a : ℕ)
      → propagate_resource_to_parent lib nodes g is_allocation free a ≡ (
          if covers lib nodes a g.node && not (g.node == a)
          then update_parent_resource lib (free a) g is_allocation
          else free a)
  unfolding propagate_resource_to_parent covers
  propagate_resource_to_parent-at g b free a = ground (
    arith,
    propagate_from-at g.node (parent_of lib nodes g.node) g b free a,
    above_lt g.node g.node a,
  )

-- ===== src/TopologyAware/Propagate.antt =====
-- resource_propagator.go: a grant is booked at every node above the one that it was taken from.
pub mod Chain
use cloud_native.Prelude.{
  ℕ, zero, suc, Bool, true, false, Option, none, some, ◌==◌, leb, if◌then◌else◌,
}
use cloud_native.Word64.{add64, sub64, is_neg}
use cloud_native.TopologyAware.CpuSets.{CpuSetLib}
use cloud_native.TopologyAware.Supply.{Supply, Grant, clamp}
use cloud_native.TopologyAware.Tree.{Nodes, Free, parent_of}

module _ (lib : CpuSetLib) where
  abbrev pub set_free : Free lib → ℕ → Supply lib → Free lib
  set_free free r s k = if r == k then s else free k

  unfoldable pub add_grant : Supply lib → Grant → Supply lib
  add_grant s g = record s {
    granted_shared = add64 s.granted_shared g.allocated_cpus;
    granted_cpu_by_request = add64 s.granted_cpu_by_request g.allocated_cpu_by_request;
    granted_cpu_by_limit = add64 s.granted_cpu_by_limit g.allocated_cpu_by_limit;
    granted_memory = add64 s.granted_memory g.allocated_memory;
  }

  unfoldable pub subtract_grant : Supply lib → Grant → Supply lib
  subtract_grant s g = record s {
    granted_shared = clamp (sub64 s.granted_shared g.allocated_cpus);
    granted_cpu_by_request = clamp (sub64 s.granted_cpu_by_request g.allocated_cpu_by_request);
    granted_cpu_by_limit = clamp (sub64 s.granted_cpu_by_limit g.allocated_cpu_by_limit);
    granted_memory =
        if leb g.allocated_memory s.granted_memory
        then sub64 s.granted_memory g.allocated_memory
        else 0;
  }

  -- The supply of a node is always a `*supply` and never nil.
  unfoldable pub update_parent_resource : Supply lib → Grant → Bool → Supply lib
  unfolding add_grant subtract_grant
  update_parent_resource s g is_allocation =
      if is_allocation then add_grant s g else subtract_grant s g

  -- The loop from a node upward, on fuel.
  unfoldable pub propagate_from : ℕ → Nodes lib → Option ℕ → Grant → Bool → Free lib → Free lib
  unfolding update_parent_resource
  propagate_from zero nodes parent g is_allocation free = free
  propagate_from (suc fuel) nodes none g is_allocation free = free
  propagate_from (suc fuel) nodes (some r) g is_allocation free =
      propagate_from fuel nodes (parent_of lib nodes r) g is_allocation
        (set_free free r (update_parent_resource (free r) g is_allocation))

  -- The parent of a node stands before it, so its place bounds the number of rounds.
  unfoldable pub propagate_resource_to_parent : Nodes lib → Grant → Bool → Free lib → Free lib
  unfolding propagate_from
  propagate_resource_to_parent nodes g is_allocation free =
      propagate_from g.node nodes (parent_of lib nodes g.node) g is_allocation free

-- ===== src/TopologyAware/Examples/Facts.antt =====
-- What the theorems ask of the small machine.
use cloud_native.Prelude.{ℕ, ◌<◌, ◌^◌, true, some, ◌≡◌, refl, arith}
use cloud_native.TopologyAware.Request.{get_requests, get_limits}
use cloud_native.TopologyAware.Supply.Capacity.{IsBounded, IsPlain}
use cloud_native.TopologyAware.Supply.Reversible.{IsNonneg, IsReadable}
use cloud_native.TopologyAware.Tree.{root_distance}
use cloud_native.TopologyAware.Filter.{contains}
use cloud_native.TopologyAware.Hooks.Booked.{total, booked}
use cloud_native.TopologyAware.Hooks.Undo.{IsSettled}
use cloud_native.TopologyAware.Hooks.Account.{IsAccounted}
use cloud_native.TopologyAware.Examples.{
  toy_lib, toy_nodes, toy_supply, toy, toy_requests, toy_limits, toy_container, toy_request,
  toy-IsOrdered,
}

pub toy-IsAccounted : IsAccounted toy_lib toy
unfolding total booked
toy-IsAccounted = record {
  ordered = toy-IsOrdered;
  named = λ a. refl;
  distinct = _;
  light = record {
    shared = omega arith;
    by_request = omega arith;
    by_limit = omega arith;
    memory = omega arith;
  };
  supplies = λ a. record { shared = refl; by_request = refl; by_limit = refl; memory = refl };
}

pub toy-IsNonneg : (a : ℕ) → IsNonneg toy_lib (toy_supply a)
toy-IsNonneg a = record {
  shared = omega arith;
  by_request = omega arith;
  by_limit = omega arith;
  memory = omega arith;
}

pub toy-IsBounded : (a : ℕ) → IsBounded toy_lib (toy_supply a)
toy-IsBounded a = record {
  capacity = omega arith;
  by_request = omega arith;
  shared = refl;
  by_limit = omega arith;
  total = omega arith;
  memory = omega arith;
}

pub toy-requests : get_requests toy_container ≡ some toy_requests
unfolding get_requests
toy-requests = refl

pub toy-limits : get_limits toy_container ≡ some toy_limits
unfolding get_limits
toy-limits = refl

pub toy-IsSettled : IsSettled toy_lib toy
toy-IsSettled = record { ordered = toy-IsOrdered; named = λ a. refl; nonneg = toy-IsNonneg }

pub toy-depths : (x : ℕ) → contains toy.pools x ≡ true → root_distance toy_lib toy_nodes x < 2 ^ 63
unfolding contains root_distance
toy-depths x h = ground arith

pub toy-IsPlain : IsPlain toy_request toy_requests toy_limits
toy-IsPlain = record {
  requests = toy-requests;
  limits = toy-limits;
  cpu = omega arith;
  cpu_limit = omega arith;
  mem_limit = omega arith;
}

pub toy-IsReadable : IsReadable toy_request toy_requests toy_limits
toy-IsReadable = record {
  requests = toy-requests;
  limits = toy-limits;
  cpu = omega arith;
  cpu_limit = omega arith;
  mem_limit = omega arith;
}

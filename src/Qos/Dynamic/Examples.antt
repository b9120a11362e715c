-- ===== src/Qos/Dynamic/Examples.antt =====
-- The tuning of the policy of one node.
use cloud_native.Prelude.{◌-◌, ◌^◌, true, some, [], ◌∷◌, ◌≡◌, refl, arith, false}
use cloud_native.TopologyAware.Request.Devices.{codes, trim_space}
use cloud_native.TopologyAware.Filter.{text_eq}
use cloud_native.Qos.Dynamic.Reasons.{mb, l3, normalize_interference_reasons, to_lower}
use cloud_native.Qos.Dynamic.{
  QosPolicySpec, Steps, PolicyClient, found, default_dynamic_policy_spec, apply_reasons_to_spec,
  apply_reason, max_int32, apply_reasons,
}
use cloud_native.Qos.Dynamic.Tuning.{
  AreAtLeastOne, apply_reasons_to_spec-AreAtLeastOne, apply_reasons_stale_selector,
}

abbrev steps : Steps
steps = record { mb_step = 10; l3_ways_step = 1; l3_max_step = 10 }

start : AreAtLeastOne (default_dynamic_policy_spec (codes "n"))
unfolding default_dynamic_policy_spec
start = (ground arith, ground arith, ground arith)

apply_reasons_to_spec-AreAtLeastOne_example :
    AreAtLeastOne
      (apply_reasons_to_spec steps (mb ∷ l3 ∷ mb ∷ []) (default_dynamic_policy_spec (codes "n")))
apply_reasons_to_spec-AreAtLeastOne_example =
    apply_reasons_to_spec-AreAtLeastOne steps (mb ∷ l3 ∷ mb ∷ [])
      (default_dynamic_policy_spec (codes "n")) start

-- A policy whose selector names another node, and which the CPU has tightened already
abbrev stored : QosPolicySpec
stored = record {
  node_selector = some ((codes "kubernetes.io/hostname", codes "other") ∷ []);
  mb_hdl = 1;
  mb_pri = 3;
  mb_min = 0;
  mb_max = 100;
  l3_pri = 0;
  l3_min = 0;
  l3_max = 100;
  l3_ways = 4;
  qos_level = 2 ^ 32 - 1;
}

-- The server has one policy.
abbrev server : PolicyClient QosPolicySpec
server = record {
  get = λ name k. found k;
  create = λ name spec k. (spec, true);
  update = λ name spec k. (spec, true);
}

settled :
    apply_reasons_to_spec steps (normalize_interference_reasons (codes "CPU" ∷ []) false) stored
    ≡ stored
unfolding apply_reasons_to_spec apply_reason max_int32 normalize_interference_reasons to_lower
    text_eq trim_space
settled = refl

apply_reasons_stale_selector_example :
    apply_reasons server steps (codes "n") (codes "CPU" ∷ []) stored ≡ (stored, true)
unfolding trim_space
apply_reasons_stale_selector_example =
    apply_reasons_stale_selector server steps (codes "n") (codes "CPU" ∷ []) stored stored
      ((codes "kubernetes.io/hostname", codes "other") ∷ []) refl refl refl refl settled

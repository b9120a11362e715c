-- ===== src/Qos/Dynamic.antt =====
-- dynamiccontrol of pkg/kunpeng-qos-controller: reasons of interference on a node (coordinator.go)
-- tighten the node's policy step by step (qospolicy_dynamic_updater.go).

pub mod Reasons
pub mod Tuning
mod Examples
use cloud_native.Prelude.{
  ℕ, ◌+◌, ◌-◌, ◌%◌, ◌^◌, Bool, true, false, ◌&&◌, ◌||◌, Option, none, some, List, [], ◌∷◌, ◌++◌,
  ◌==◌, ltb, leb, if◌then◌else◌,
}
use cloud_native.Word64.{slt32}
use cloud_native.TopologyAware.Request.Devices.{Text, codes, is_empty, trim_space}
use cloud_native.TopologyAware.Filter.{text_eq}
use cloud_native.Cache.Table.{put}
use Reasons.{
  InterferenceReason, none_reported, cpu, mb, l3, to_lower, normalize_interference_reasons,
}

-- `int32` as a pattern of 32 bits
abbrev pub sub32 : ℕ → ℕ → ℕ
sub32 a b = (a + 2 ^ 32 - b) % 2 ^ 32

unfoldable pub max_int32 : ℕ → ℕ → ℕ
max_int32 v min = if slt32 v min then min else v

pub record QosPolicySpec : Type 0 where
  pub node_selector : Option (List (Text × Text))
  pub mb_hdl : ℕ
  pub mb_pri : ℕ
  pub mb_min : ℕ
  pub mb_max : ℕ
  pub l3_pri : ℕ
  pub l3_min : ℕ
  pub l3_max : ℕ
  pub l3_ways : ℕ
  pub qos_level : ℕ

-- The fields MBStep, L3WaysStep and L3MaxStep of the updater
pub record Steps : Type 0 where
  pub mb_step : ℕ
  pub l3_ways_step : ℕ
  pub l3_max_step : ℕ

abbrev node_selector_key : Text
node_selector_key = codes "kubernetes.io/hostname"

unfoldable pub default_dynamic_policy_spec : Text → QosPolicySpec
default_dynamic_policy_spec node = record {
  node_selector = some ((node_selector_key, node) ∷ []);
  mb_hdl = 1;
  mb_pri = 3;
  mb_min = 0;
  mb_max = 100;
  l3_pri = 0;
  l3_min = 0;
  l3_max = 100;
  l3_ways = 4;
  qos_level = 0;
}

-- One round of the loop
unfoldable pub apply_reason : Steps → InterferenceReason → QosPolicySpec → QosPolicySpec
unfolding max_int32
apply_reason steps none_reported spec = spec
apply_reason steps mb spec = record spec { mb_max = max_int32 (sub32 spec.mb_max steps.mb_step) 1 }
apply_reason steps l3 spec = record spec {
  l3_ways = max_int32 (sub32 spec.l3_ways steps.l3_ways_step) 1;
  l3_max = max_int32 (sub32 spec.l3_max steps.l3_max_step) 1;
}
apply_reason steps cpu spec = record spec { qos_level = 2 ^ 32 - 1 }

unfoldable pub apply_reasons_to_spec :
    Steps → List InterferenceReason → QosPolicySpec → QosPolicySpec
unfolding apply_reason
apply_reasons_to_spec steps [] spec = spec
apply_reasons_to_spec steps (reason ∷ reasons) spec =
    apply_reasons_to_spec steps reasons (apply_reason steps reason spec)

dashed : Text → Text
dashed [] = []
dashed (c ∷ s) = let rest = dashed s in if c == 46 || c == 95 then 45 ∷ rest else c ∷ rest

or_unknown : Text → Text
or_unknown name = if is_empty name then codes "unknown-node" else name

unfoldable pub dynamic_policy_name : Text → Text
unfolding dashed or_unknown to_lower
dynamic_policy_name node =
    codes "qos-dynamic-offline-" ++ or_unknown (dashed (to_lower (trim_space node)))

entries_eq : List (Text × Text) → List (Text × Text) → Bool
entries_eq [] [] = true
entries_eq [] ((k, v) ∷ n) = false
entries_eq ((k, v) ∷ m) [] = false
entries_eq ((k, v) ∷ m) ((l, w) ∷ n) = text_eq k l && text_eq v w && entries_eq m n

-- `reflect.DeepEqual` of the selectors: nil is not an empty map. (The lists compared here are one
-- list, or one of them is nil.)
selector_eq : Option (List (Text × Text)) → Option (List (Text × Text)) → Bool
unfolding entries_eq
selector_eq none none = true
selector_eq none (some n) = false
selector_eq (some m) none = false
selector_eq (some m) (some n) = entries_eq m n

unfoldable pub spec_eq : QosPolicySpec → QosPolicySpec → Bool
unfolding selector_eq
spec_eq a b =
    selector_eq a.node_selector b.node_selector
    && a.mb_hdl == b.mb_hdl
    && a.mb_pri == b.mb_pri
    && a.mb_min == b.mb_min
    && a.mb_max == b.mb_max
    && a.l3_pri == b.l3_pri
    && a.l3_min == b.l3_min
    && a.l3_max == b.l3_max
    && a.l3_ways == b.l3_ways
    && a.qos_level == b.qos_level

-- The selectors of `current.Spec` and of `desired` after the write through `desired`: the copy of the
-- Spec shares the map, unless there was none.
unfoldable pub write_selector :
    Text → Option (List (Text × Text)) → Option (List (Text × Text)) × Option (List (Text × Text))
write_selector node none = (none, some ((node_selector_key, node) ∷ []))
write_selector node (some m) =
    (some (put m node_selector_key node), some (put m node_selector_key node))

with_ways : QosPolicySpec → QosPolicySpec
with_ways spec = if slt32 spec.l3_ways 1 then record spec { l3_ways = 1 } else spec

-- `current.Spec` and `desired` where they are compared
unfoldable pub desired_spec :
    Steps → Text → List InterferenceReason → QosPolicySpec → QosPolicySpec × QosPolicySpec
unfolding write_selector with_ways apply_reasons_to_spec
desired_spec steps node reasons current =
    let (old, new) = write_selector node current.node_selector in
    (
      record current { node_selector = old },
      apply_reasons_to_spec steps reasons (with_ways (record current { node_selector = new })),
    )

-- What Get answers
pub data Fetched : Type 0 where
  found : QosPolicySpec → Fetched
  not_found failed : Fetched

-- The client of the API server, on a state of its own. A write may fail.
pub record PolicyClient (K : Type 0) : Type 0 where
  pub get : Text → K → Fetched
  pub create : Text → QosPolicySpec → K → K × Bool
  pub update : Text → QosPolicySpec → K → K × Bool

module _ {K : Type 0} (client : PolicyClient K) (steps : Steps) where
  write_if_changed : Text → QosPolicySpec × QosPolicySpec → K → K × Bool
  unfolding spec_eq
  write_if_changed name (current, desired) k =
      if spec_eq current desired then (k, true) else client.update name desired k

  apply_fetched : Text → List InterferenceReason → Fetched → K → K × Bool
  unfolding write_if_changed desired_spec default_dynamic_policy_spec dynamic_policy_name
      apply_reasons_to_spec
  apply_fetched node reasons failed k = (k, false)
  apply_fetched node reasons not_found k =
      client.create (dynamic_policy_name node)
        (apply_reasons_to_spec steps reasons (default_dynamic_policy_spec node)) k
  apply_fetched node reasons (found spec) k =
      write_if_changed (dynamic_policy_name node) (desired_spec steps node reasons spec) k

  -- ApplyReasons; the Boolean says that there was no error.
  unfoldable pub apply_reasons : Text → List Text → K → K × Bool
  unfolding apply_fetched normalize_interference_reasons dynamic_policy_name
  apply_reasons node texts k =
      if is_empty (trim_space node)
      then (k, false)
      else let reasons = normalize_interference_reasons texts false in
        if is_empty reasons
        then (k, true)
        else apply_fetched node reasons (client.get (dynamic_policy_name node) k) k

  ensure_fetched : Text → Fetched → K → K × Bool
  unfolding default_dynamic_policy_spec dynamic_policy_name
  ensure_fetched node (found spec) k = (k, true)
  ensure_fetched node failed k = (k, false)
  ensure_fetched node not_found k =
      client.create (dynamic_policy_name node) (default_dynamic_policy_spec node) k

  unfoldable pub ensure_policy : Text → K → K × Bool
  unfolding ensure_fetched dynamic_policy_name
  ensure_policy node k =
      if is_empty (trim_space node)
      then (k, false)
      else ensure_fetched node (client.get (dynamic_policy_name node) k) k

-- ===== src/Qos/Dynamic/Tuning.antt =====
-- What the steps of the tuning keep, and when a policy is written.
use cloud_native.Prelude.{
  ℕ, ◌^◌, ◌≤◌, ◌<◌, true, false, Option, some, List, [], ◌∷◌, ◌≡◌, refl, ap, ◌∙◌, arith, Bool-cases,
  inl, inr,
}
use cloud_native.Word64.{slt32}
use cloud_native.TopologyAware.Request.Devices.{Text, is_empty, trim_space}
use cloud_native.PcoreBinding.Topology.Distinct.{text_eq_refl}
use cloud_native.Cache.Table.{put}
use cloud_native.Qos.Dynamic.Reasons.{
  InterferenceReason, none_reported, cpu, mb, l3, normalize_interference_reasons,
}
use cloud_native.Qos.Dynamic.{
  sub32, max_int32, QosPolicySpec, Steps, apply_reason, apply_reasons_to_spec, dynamic_policy_name,
  entries_eq, selector_eq, spec_eq, write_selector, with_ways, desired_spec, found, PolicyClient,
  write_if_changed, apply_fetched, apply_reasons, node_selector_key,
}

-- A positive `int32`
abbrev pub IsAtLeastOne : ℕ → Type 0
IsAtLeastOne v = (1 ≤ v) × (v < 2 ^ 31)

abbrev pub AreAtLeastOne : QosPolicySpec → Type 0
AreAtLeastOne spec = IsAtLeastOne spec.mb_max × IsAtLeastOne spec.l3_ways × IsAtLeastOne spec.l3_max

max_int32-IsAtLeastOne : (a b : ℕ) → IsAtLeastOne (max_int32 (sub32 a b) 1)
unfolding max_int32
max_int32-IsAtLeastOne a b = ground arith

apply_reason-AreAtLeastOne :
    (steps : Steps) (reason : InterferenceReason) (spec : QosPolicySpec)
    → AreAtLeastOne spec
    → AreAtLeastOne (apply_reason steps reason spec)
unfolding apply_reason
apply_reason-AreAtLeastOne steps none_reported spec v = v
apply_reason-AreAtLeastOne steps cpu spec v = v
apply_reason-AreAtLeastOne steps mb spec v =
    (max_int32-IsAtLeastOne spec.mb_max steps.mb_step, v.1, v.2)
apply_reason-AreAtLeastOne steps l3 spec v = (
  v.0,
  max_int32-IsAtLeastOne spec.l3_ways steps.l3_ways_step,
  max_int32-IsAtLeastOne spec.l3_max steps.l3_max_step,
)

-- Whatever the reasons and the steps, applying the reasons keeps the maximum of the bandwidth, the
-- ways and the maximum of the cache positive int32, where they are so before.
pub apply_reasons_to_spec-AreAtLeastOne :
    (steps : Steps) (reasons : List InterferenceReason) (spec : QosPolicySpec)
    → AreAtLeastOne spec
    → AreAtLeastOne (apply_reasons_to_spec steps reasons spec)
unfolding apply_reasons_to_spec
apply_reasons_to_spec-AreAtLeastOne steps [] spec v = v
apply_reasons_to_spec-AreAtLeastOne steps (reason ∷ reasons) spec v =
    apply_reasons_to_spec-AreAtLeastOne steps reasons (apply_reason steps reason spec)
      (apply_reason-AreAtLeastOne steps reason spec v)

apply_reason_selector :
    (steps : Steps) (reason : InterferenceReason) (spec : QosPolicySpec)
    (m : Option (List (Text × Text)))
    → apply_reason steps reason (record spec { node_selector = m })
      ≡ record (apply_reason steps reason spec) { node_selector = m }
unfolding apply_reason
apply_reason_selector steps none_reported spec m = refl
apply_reason_selector steps cpu spec m = refl
apply_reason_selector steps mb spec m = refl
apply_reason_selector steps l3 spec m = refl

apply_reasons_to_spec_selector :
    (steps : Steps) (reasons : List InterferenceReason) (spec : QosPolicySpec)
    (m : Option (List (Text × Text)))
    → apply_reasons_to_spec steps reasons (record spec { node_selector = m })
      ≡ record (apply_reasons_to_spec steps reasons spec) { node_selector = m }
unfolding apply_reasons_to_spec
apply_reasons_to_spec_selector steps [] spec m = refl
apply_reasons_to_spec_selector steps (reason ∷ reasons) spec m =
    ap (apply_reasons_to_spec steps reasons) (apply_reason_selector steps reason spec m)
    ∙ apply_reasons_to_spec_selector steps reasons (apply_reason steps reason spec) m

entries_eq_refl : (m : List (Text × Text)) → entries_eq m m ≡ true
unfolding entries_eq
entries_eq_refl [] = refl
entries_eq_refl ((k, v) ∷ m) = rw (text_eq_refl k, text_eq_refl v, entries_eq_refl m) refl

spec_eq_refl :
    (a : QosPolicySpec) (m : List (Text × Text))
    → spec_eq (record a { node_selector = some m }) (record a { node_selector = some m }) ≡ true
unfolding spec_eq selector_eq
spec_eq_refl a m = rw (entries_eq_refl m) (ground arith)

module _ {K : Type 0} (client : PolicyClient K) (steps : Steps) where
  -- ApplyReasons does not write a selector that is wrong. Where the node's policy exists and has a
  -- selector, of whatever content, its ways are at least one and the reasons change nothing in it,
  -- ApplyReasons reports success and writes nothing. The name of the node is not blank.
  pub apply_reasons_stale_selector :
      (node : Text) (texts : List Text) (k : K) (spec : QosPolicySpec) (m : List (Text × Text))
      → is_empty (trim_space node) ≡ false
      → client.get (dynamic_policy_name node) k ≡ found spec
      → spec.node_selector ≡ some m
      → slt32 spec.l3_ways 1 ≡ false
      → apply_reasons_to_spec steps (normalize_interference_reasons texts false) spec ≡ spec
      → apply_reasons client steps node texts k ≡ (k, true)
  unfolding apply_reasons apply_fetched write_if_changed desired_spec write_selector with_ways
  apply_reasons_stale_selector node texts k spec m named there selected enough settled =
      elim (Bool-cases (is_empty (normalize_interference_reasons texts false))) [
        | inl nothing ↦ rw (named, nothing) refl
        | inr some_reason ↦
            let n = put m node_selector_key node in
            let same =
              apply_reasons_to_spec_selector steps (normalize_interference_reasons texts false) spec
                (some n)
              ∙ ap (λ (s : QosPolicySpec). record s { node_selector = some n }) settled in
            rw (named, some_reason, there, selected, enough, same, spec_eq_refl spec n) refl
      ]

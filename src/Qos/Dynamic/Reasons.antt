-- ===== src/Qos/Dynamic/Reasons.antt =====
-- coordinator.go: the reasons of interference that the agent reports are texts, which
-- normalizeInterferenceReasons reads.
use cloud_native.Prelude.{
  ◌+◌, Bool, true, false, ◌&&◌, ◌||◌, Option, none, some, List, [], ◌∷◌, leb, if◌then◌else◌,
}
use cloud_native.TopologyAware.Request.Devices.{Text, codes, trim_space}
use cloud_native.TopologyAware.Filter.{text_eq}

pub data InterferenceReason : Type 0 where
  none_reported cpu mb l3 : InterferenceReason

-- `strings.ToLower`, for ASCII
unfoldable pub to_lower : Text → Text
to_lower [] = []
to_lower (c ∷ s) =
    let rest = to_lower s in if leb 65 c && leb c 90 then (c + 32) ∷ rest else c ∷ rest

reason_of : Text → Option InterferenceReason
reason_of text =
    if text_eq text (codes "none")
    then some none_reported
    else if text_eq text (codes "cpu")
    then some cpu
    else if text_eq text (codes "mb")
    then some mb
    else if text_eq text (codes "l3")
    then some l3
    else none

-- `seen[reason]`, where the map has the reasons of the texts
same_reason : InterferenceReason → InterferenceReason → Bool
same_reason none_reported none_reported = true
same_reason cpu cpu = true
same_reason mb mb = true
same_reason l3 l3 = true
same_reason _ _ = false

is_reason : InterferenceReason → Option InterferenceReason → Bool
unfolding same_reason
is_reason reason none = false
is_reason reason (some other) = same_reason reason other

is_seen : InterferenceReason → List Text → Bool
unfolding is_reason reason_of to_lower
is_seen reason [] = false
is_seen reason (text ∷ texts) =
    is_reason reason (reason_of (to_lower (trim_space text))) || is_seen reason texts

keep_if : Bool → InterferenceReason → List InterferenceReason → List InterferenceReason
keep_if b reason rest = if b then reason ∷ rest else rest

-- The first result of normalizeInterferenceReasons; the second is only logged.
unfoldable pub normalize_interference_reasons : List Text → Bool → List InterferenceReason
unfolding is_seen keep_if
normalize_interference_reasons texts include_none =
    keep_if (include_none && is_seen none_reported texts) none_reported (
      keep_if (is_seen cpu texts) cpu
        (keep_if (is_seen mb texts) mb (keep_if (is_seen l3 texts) l3 [])))

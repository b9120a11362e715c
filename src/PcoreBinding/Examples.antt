-- ===== src/PcoreBinding/Examples.antt =====
-- Two cores and two pods: tests of the agent and its theorems at work.
use cloud_native.Prelude.{
  ℕ, ◌*◌, ◌<◌, ◌^◌, true, false, String, none, some, List, [], ◌∷◌, ◌≡◌, ◌↔◌, refl, arith, str_eq,
  if◌then◌else◌,
}
use cloud_native.TopologyAware.Request.Devices.{codes, is_empty, trim_space, split, has_infix}
use cloud_native.TopologyAware.Filter.{print_int, text_eq}
use cloud_native.PcoreBinding.Topology.{
  SiblingPair, pair_string, atoi, cpu_range, parse_item, parse_items, sort_ints, parse_cpu_list,
  parse_pair, has_text, discover_sibling_pairs,
}
use cloud_native.PcoreBinding.Topology.Distinct.{texts, NoRepeat, discover_sibling_pairs-NoRepeat}
use cloud_native.PcoreBinding.Agent.{
  PodInfo, Agent, has_key, has_target_cpu_limit, match, parse_cpuset, normalize_cpuset, kept_pair,
  free_pair, target_cpuset,
}
use cloud_native.PcoreBinding.Agent.Matching.{has_target_cpu_limit_iff}
use cloud_native.PcoreBinding.Agent.Choice.{sets}
use cloud_native.PcoreBinding.Reconcile.{
  System, Files, read_cpuset, write_cpuset, write_all, needs_cpuset_update, reconcile_pod,
  reconcile_pods, sort_pods, list_pods, reconcile_once,
}
use cloud_native.PcoreBinding.Reconcile.Exclusive.{IsExclusive, reconcile_once-IsExclusive}

abbrev two_pairs : List SiblingPair
two_pairs = record { cpu0 = 0; cpu1 = 2 } ∷ record { cpu0 = 1; cpu1 = 3 } ∷ []

abbrev pod_of : String → PodInfo
pod_of id = record {
  id = id;
  name = id;
  namespace = "default";
  runtime_class = "kata";
  cgroup_path = id;
  cpu_quota = 200000;
  cpu_period = 100000;
  cpu_limit_known = true;
}

abbrev two_pods : Agent
two_pods = record {
  dry_run = false;
  sibling_pairs = two_pairs;
  namespaces = "default" ∷ [];
  runtime_classes = "kata" ∷ [];
  pods = ("b", pod_of "b") ∷ ("a", pod_of "a") ∷ [];
  requested = true;
}

abbrev two_files : Files
two_files path =
    if str_eq path "a"
    then some (codes "0-3")
    else if str_eq path "b"
    then some (codes "0,2\n")
    else none

abbrev own_path : System
own_path = record {
  resolve_cgroup_path_candidates = λ path id. some (path ∷ []);
  writable = λ path. true;
}

-- Pod `a` comes first and takes the pair that `b` has.
assigned_two :
    (reconcile_once two_pods own_path two_files).assigned
    ≡ (pod_of "b", codes "1,3") ∷ (pod_of "a", codes "0,2") ∷ []
unfolding reconcile_once reconcile_pods reconcile_pod list_pods sort_pods match has_key
    has_target_cpu_limit read_cpuset write_all write_cpuset needs_cpuset_update target_cpuset
    kept_pair free_pair normalize_cpuset parse_cpuset parse_items parse_item atoi cpu_range
    sort_ints has_text text_eq pair_string print_int trim_space split has_infix
assigned_two = refl

reconcile_once-IsExclusive_example :
    IsExclusive two_pods (reconcile_once two_pods own_path two_files)
reconcile_once-IsExclusive_example = reconcile_once-IsExclusive two_pods own_path two_files

has_target_cpu_limit_iff_example :
    (has_target_cpu_limit (pod_of "a") ≡ true)
    ↔ ((true ≡ true) × (0 < 100000) × (200000 < 2 ^ 63) × (◌≡◌ {A = ℕ} 200000 (2 * 100000)))
has_target_cpu_limit_iff_example = has_target_cpu_limit_iff (pod_of "a") (omega arith)

target_free : is_empty (target_cpuset two_pods (codes "0-3") (codes "0,2" ∷ [])) ≡ false
unfolding target_cpuset kept_pair free_pair normalize_cpuset parse_cpuset parse_items parse_item
    atoi cpu_range sort_ints has_text text_eq pair_string print_int trim_space split has_infix
target_free = refl

is_pair : has_text (sets two_pairs) (normalize_cpuset (codes "3, 1")) ≡ true
unfolding normalize_cpuset parse_cpuset parse_items parse_item atoi cpu_range sort_ints has_text
    text_eq pair_string print_int trim_space split has_infix
is_pair = refl

is_not_taken : has_text (codes "0,2" ∷ []) (normalize_cpuset (codes "3, 1")) ≡ false
unfolding normalize_cpuset parse_cpuset parse_items parse_item atoi cpu_range sort_ints has_text
    text_eq pair_string print_int trim_space split has_infix
is_not_taken = refl

found_two :
    discover_sibling_pairs
      (some (codes "1,3\n") ∷ some (codes "0,2") ∷ some (codes "1,3") ∷ none ∷ [])
    ≡ some two_pairs
unfolding discover_sibling_pairs parse_pair parse_cpu_list parse_items parse_item atoi cpu_range
    sort_ints has_text text_eq pair_string print_int trim_space split has_infix
found_two = refl

discover_sibling_pairs-NoRepeat_example : NoRepeat (texts two_pairs)
discover_sibling_pairs-NoRepeat_example =
    discover_sibling_pairs-NoRepeat
      (some (codes "1,3\n") ∷ some (codes "0,2") ∷ some (codes "1,3") ∷ none ∷ []) two_pairs
      found_two

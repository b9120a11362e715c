-- ===== src/PcoreBinding/Agent.antt =====
-- plugin/agent.go: the table of pods and the pass that gives each matching pod a physical core.
pub mod Matching
pub mod Choice
use Prim.Native.String.{String}
use cloud_native.Prelude.{
  ℕ, Bool, true, false, not, ◌||◌, ◌&&◌, Option, none, some, List, [], ◌∷◌, ◌/◌, ◌%◌, ◌++◌, ◌==◌,
  str_eq, if◌then◌else◌, map, ltb,
}
use cloud_native.Word64.{is_pos}
use cloud_native.TopologyAware.Request.Devices.{Text, codes, is_empty, trim_space, split}
use cloud_native.TopologyAware.Filter.{print_int, text_eq}
use cloud_native.PcoreBinding.Topology.{SiblingPair, pair_string, parse_items, sort_ints, has_text}

-- What the agent reads of the messages of NRI; `none` is nil.
pub record LinuxCpu : Type 0 where
  pub quota : Option ℕ
  pub period : Option ℕ

pub record LinuxPodSandbox : Type 0 where
  pub cgroup_parent : String
  pub pod_resources : Option (Option LinuxCpu)
  pub resources : Option (Option LinuxCpu)

pub record PodSandbox : Type 0 where
  pub id : String
  pub name : String
  pub namespace : String
  pub runtime_handler : String
  pub linux : Option LinuxPodSandbox

pub record PodInfo : Type 0 where
  pub id : String
  pub name : String
  pub namespace : String
  pub runtime_class : String
  pub cgroup_path : String
  pub cpu_quota : ℕ
  pub cpu_period : ℕ
  pub cpu_limit_known : Bool

-- The fields of `Agent` and of its `Config` that the pass and the handlers use. `requested` is the
-- channel of one place that wakes the loop.
pub record Agent : Type 0 where
  pub dry_run : Bool
  pub sibling_pairs : List SiblingPair
  pub namespaces : List String
  pub runtime_classes : List String
  pub pods : List (String × PodInfo)
  pub requested : Bool

unfoldable pub to_set : List String → List String
to_set [] = []
to_set (item ∷ items) = let rest = to_set items in if str_eq item "" then rest else item ∷ rest

-- `_, ok := m[key]`
unfoldable pub has_key : List String → String → Bool
has_key [] key = false
has_key (k ∷ ks) key = str_eq k key || has_key ks key

or_resources : Option (Option LinuxCpu) → Option (Option LinuxCpu) → Option (Option LinuxCpu)
or_resources none resources = resources
or_resources (some pod) resources = some pod

with_limit : PodInfo → Option ℕ → Option ℕ → PodInfo
with_limit out (some quota) (some period) = record out {
  cpu_quota = quota;
  cpu_period = period;
  cpu_limit_known = true;
}
with_limit out _ _ = out

with_cpu : PodInfo → Option (Option LinuxCpu) → PodInfo
unfolding with_limit
with_cpu out (some (some cpu)) = with_limit out cpu.quota cpu.period
with_cpu out (some none) = out
with_cpu out none = out

with_linux : PodInfo → Option LinuxPodSandbox → PodInfo
unfolding with_cpu or_resources
with_linux out none = out
with_linux out (some linux) =
    with_cpu (record out { cgroup_path = linux.cgroup_parent })
      (or_resources linux.pod_resources linux.resources)

-- The last test of the code copies the handler where it is not empty; an empty one copies as well.
unfoldable pub convert_pod : PodSandbox → PodInfo
unfolding with_linux
convert_pod p =
    record (with_linux
      (record {
        id = p.id;
        name = p.name;
        namespace = p.namespace;
        runtime_class = "";
        cgroup_path = "";
        cpu_quota = 0;
        cpu_period = 0;
        cpu_limit_known = false;
      })
      p.linux) { runtime_class = p.runtime_handler }

delete_pod : String → List (String × PodInfo) → List (String × PodInfo)
delete_pod key [] = []
delete_pod key ((k, pod) ∷ pods) =
    let rest = delete_pod key pods in if str_eq k key then rest else (k, pod) ∷ rest

store_pod : PodSandbox → List (String × PodInfo) → List (String × PodInfo)
unfolding delete_pod convert_pod
store_pod p pods = (p.id, convert_pod p) ∷ delete_pod p.id pods

-- The loop of `replacePods` on a new map, whose last pod of a key stays
next_pods : List (String × PodInfo) → List (Option PodSandbox) → List (String × PodInfo)
unfolding store_pod
next_pods next [] = next
next_pods next (none ∷ pods) = next_pods next pods
next_pods next (some p ∷ pods) = next_pods (store_pod p next) pods

unfoldable pub replace_pods : Agent → List (Option PodSandbox) → Agent
unfolding next_pods
replace_pods a pods = record a { pods = next_pods [] pods }

unfoldable pub upsert_pod : Agent → Option PodSandbox → Agent
unfolding store_pod
upsert_pod a none = a
upsert_pod a (some p) = record a { pods = store_pod p a.pods }

unfoldable pub remove_pod : Agent → Option PodSandbox → Agent
unfolding delete_pod
remove_pod a none = a
remove_pod a (some p) = record a { pods = delete_pod p.id a.pods }

abbrev pub request_reconcile : Agent → Agent
request_reconcile a = record a { requested = true }

-- The handlers of NRI; `StopPodSandbox` and `RemovePodSandbox` are the same.
unfoldable pub synchronize : Agent → List (Option PodSandbox) → Agent
unfolding replace_pods
synchronize a pods = request_reconcile (replace_pods a pods)

unfoldable pub run_pod_sandbox : Agent → Option PodSandbox → Agent
unfolding upsert_pod
run_pod_sandbox a pod = request_reconcile (upsert_pod a pod)

unfoldable pub stop_pod_sandbox : Agent → Option PodSandbox → Agent
unfolding remove_pod
stop_pod_sandbox a pod = request_reconcile (remove_pod a pod)

-- Two CPUs: the division is not reached with the period 0.
unfoldable pub has_target_cpu_limit : PodInfo → Bool
has_target_cpu_limit pod =
    if not pod.cpu_limit_known || not (is_pos pod.cpu_quota) || pod.cpu_period == 0
    then false
    else pod.cpu_quota / pod.cpu_period == 2 && pod.cpu_quota % pod.cpu_period == 0

unfoldable pub match : Agent → PodInfo → Bool
unfolding has_key has_target_cpu_limit
match a pod =
    if not (has_key a.namespaces pod.namespace)
    then false
    else if not (has_key a.runtime_classes pod.runtime_class)
    then false
    else has_target_cpu_limit pod

join_ints : List ℕ → Text
unfolding print_int
join_ints [] = []
join_ints (x ∷ []) = print_int x
join_ints (x ∷ y ∷ ys) = print_int x ++ codes "," ++ join_ints (y ∷ ys)

unfoldable pub parse_cpuset : Text → Option (List ℕ)
unfolding trim_space parse_items
parse_cpuset raw =
    let trimmed = trim_space raw in
    if is_empty trimmed then some [] else parse_items (split 44 trimmed)

normal_of : Text → Option (List ℕ) → Text
unfolding join_ints sort_ints
normal_of raw none = trim_space raw
normal_of raw (some cpus) = join_ints (sort_ints cpus)

unfoldable pub normalize_cpuset : Text → Text
unfolding normal_of parse_cpuset
normalize_cpuset raw = normal_of raw (parse_cpuset raw)

-- The normal form of a pair's text
abbrev pub pair_set : SiblingPair → Text
pair_set pair = normalize_cpuset (pair_string pair)

-- The first loop of `targetCpuset`: the pair that the pod has, if no other pod has taken it.
unfoldable pub kept_pair : Text → List Text → List SiblingPair → Text
kept_pair current_set occupied [] = []
kept_pair current_set occupied (pair ∷ pairs) =
    let rest = kept_pair current_set occupied pairs in
    if text_eq current_set (pair_set pair)
    then if has_text occupied (pair_set pair) then [] else pair_string pair
    else rest

-- The second loop: the first free pair, or the empty text.
unfoldable pub free_pair : List Text → List SiblingPair → Text
free_pair occupied [] = []
free_pair occupied (pair ∷ pairs) =
    let rest = free_pair occupied pairs in
    if has_text occupied (pair_set pair) then rest else pair_string pair

-- No text of a pair is empty, so the empty text stands for a first loop that returns nothing.
unfoldable pub target_cpuset : Agent → Text → List Text → Text
unfolding kept_pair free_pair
target_cpuset a current occupied =
    let kept = kept_pair (normalize_cpuset current) occupied a.sibling_pairs in
    if is_empty kept then free_pair occupied a.sibling_pairs else kept

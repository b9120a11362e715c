-- ===== src/Cache/Resources.antt =====
-- utils.go, and the conversions of NRI messages in container.go and pod.go: amounts of CPU and
-- memory. Amounts are patterns of 64 bits.
use cloud_native.Prelude.{
  ℕ, ◌-◌, ◌*◌, ◌/◌, ◌%◌, ◌^◌, Bool, true, false, ◌&&◌, ◌||◌, not, Option, none, some, List, [], ◌∷◌,
  ◌==◌, if◌then◌else◌,
}
use cloud_native.Word64.{mul64, is_neg, is_pos}
use cloud_native.TopologyAware.Request.Devices.{Text, codes, is_empty, split, has_infix}
use cloud_native.TopologyAware.Hooks.{QosClass}
use cloud_native.TopologyAware.Hooks.QosClass.{best_effort, burstable, guaranteed, unset}
use cloud_native.TopologyAware.Rebuild.{round_div}

-- The fields of the message `LinuxContainerResources` that the program reads or writes
pub record LinuxContainerResources : Type 0 where
  pub cpu_period : ℕ
  pub cpu_quota : ℕ
  pub cpu_shares : ℕ
  pub memory_limit_in_bytes : ℕ
  pub oom_score_adj : ℕ
  pub cpuset_cpus : Text
  pub cpuset_mems : Text
  pub memory_swap_limit_in_bytes : ℕ

-- `&v1alpha1.LinuxContainerResources{}`
abbrev pub no_resources : LinuxContainerResources
no_resources = record {
  cpu_period = 0;
  cpu_quota = 0;
  cpu_shares = 0;
  memory_limit_in_bytes = 0;
  oom_score_adj = 0;
  cpuset_cpus = [];
  cpuset_mems = [];
  memory_swap_limit_in_bytes = 0;
}

-- The absolute value of an `int64`
abbrev pub magnitude : ℕ → ℕ
magnitude a = if is_neg a then 2 ^ 64 - a else a

-- `int64(float64(a)/float64(b) + 0.5)`: the conversion cuts towards 0, so a negative quotient is
-- rounded to its upper neighbour at a half. (The float64 arithmetic is exact enough for this while
-- the absolute value of `a` is below 2 ^ 51.)
unfoldable pub round_ratio : ℕ → ℕ → ℕ
unfolding round_div
round_ratio a b =
    let m = magnitude a in
    let n = magnitude b in
    if (is_neg a && is_neg b) || (not (is_neg a) && not (is_neg b))
    then round_div m n
    else (2 ^ 64 - (2 * m - n) / (2 * n)) % 2 ^ 64

unfoldable pub shares_to_milli_cpu : ℕ → ℕ
unfolding round_ratio
shares_to_milli_cpu shares = if shares == 2 then 0 else round_ratio (mul64 shares 1000) 1024

unfoldable pub quota_to_milli_cpu : ℕ → ℕ → ℕ
unfolding round_ratio
quota_to_milli_cpu quota period =
    if quota == 0 || period == 0 then 0 else round_ratio (mul64 quota 1000) period

-- `strings.TrimPrefix(dir, "/")`
unfoldable pub trim_slash : Text → Text
trim_slash [] = []
trim_slash (c ∷ s) = if c == 47 then s else c ∷ s

-- The `switch` on the pieces of the path
qos_of : List Text → QosClass
qos_of [] = unset
qos_of (first ∷ []) = unset
qos_of (first ∷ second ∷ rest) =
    if has_infix (codes "burstable") second
    then burstable
    else if has_infix (codes "besteffort") second
    then best_effort
    else guaranteed

unfoldable pub cgroup_parent_to_qos : Text → QosClass
unfolding trim_slash qos_of
cgroup_parent_to_qos dir = qos_of (split 47 (trim_slash dir))

-- A `ResourceList` with its entries for CPU, in milli-CPUs, and memory, in bytes
pub record Quantities : Type 0 where
  pub cpu : Option ℕ
  pub memory : Option ℕ

pub record Requirements : Type 0 where
  pub requests : Quantities
  pub limits : Quantities

abbrev pub no_requirements : Requirements
no_requirements = record {
  requests = record { cpu = none; memory = none };
  limits = record { cpu = none; memory = none };
}

-- `if value := ...; value > 0 { list[name] = value }`
abbrev pub if_pos : ℕ → Option ℕ
if_pos value = if is_pos value then some value else none

-- A read of a map of quantities: a missing entry is the quantity 0.
abbrev pub or_zero : Option ℕ → ℕ
or_zero none = 0
or_zero (some q) = q

abbrev is_guaranteed : QosClass → Bool
is_guaranteed guaranteed = true
is_guaranteed best_effort = false
is_guaranteed burstable = false
is_guaranteed unset = false

-- The quantities that EstimateRequirements and estimateComputeResources both compute, for a class
unfoldable pub requirements_for : QosClass → LinuxContainerResources → Requirements
unfolding shares_to_milli_cpu quota_to_milli_cpu
requirements_for qos res =
    let cpu_request = if_pos (shares_to_milli_cpu res.cpu_shares) in
    let memory_limit = if_pos res.memory_limit_in_bytes in
    if is_guaranteed qos
    then record {
      requests = record { cpu = cpu_request; memory = some (or_zero memory_limit) };
      limits = record { cpu = some (or_zero cpu_request); memory = memory_limit };
    }
    else record {
      requests = record { cpu = cpu_request; memory = none };
      limits = record {
        cpu = if_pos (quota_to_milli_cpu res.cpu_quota res.cpu_period);
        memory = memory_limit;
      };
    }

unfoldable pub estimate_requirements : Option LinuxContainerResources → Text → Requirements
unfolding requirements_for cgroup_parent_to_qos
estimate_requirements none cgroup_parent = no_requirements
estimate_requirements (some res) cgroup_parent =
    requirements_for (if is_empty cgroup_parent then unset else cgroup_parent_to_qos cgroup_parent)
      res

unfoldable pub estimate_compute_resources : Option LinuxContainerResources → Requirements
unfolding requirements_for
estimate_compute_resources none = no_requirements
estimate_compute_resources (some lnx) = requirements_for best_effort lnx

-- ===== src/Server/Nri/Adjust/Bounds.antt =====
-- What the plugin asks of the runtime is in range, whatever the hook answers.
use cloud_native.Prelude.{
  ℕ, ◌-◌, ◌^◌, ◌≤◌, ◌<◌, Option, none, some, List, ◌≡◌, ◌≢◌, ◌⊎◌, arith, subst,
}
use cloud_native.TopologyAware.Request.Devices.{Text}
use cloud_native.Cache.Resources.{LinuxContainerResources}
use cloud_native.Server.HookManager.{ContainerResourceHookResponse}
use cloud_native.Server.Nri.Adjust.{
  ContainerAdjustment, no_adjustment, set_amount, set_score, set_linux_resources, with_resources,
  with_annotations, with_envs, convert_to_ctr_adjustment,
}

-- What is set is a positive `int64`.
abbrev pub IsPositive : Option ℕ → Type 0
IsPositive none = Unit {0}
IsPositive (some value) = (0 < value) × (value < 2 ^ 63)

-- What is set is an `int64` from -1000 to 1000 and not 0.
abbrev pub IsScore : Option ℕ → Type 0
IsScore none = Unit {0}
IsScore (some value) = (value ≢ 0) × ((value ≤ 1000) ⊎ ((2 ^ 64 - 1000 ≤ value) × (value < 2 ^ 64)))

pub record IsInRange (a : ContainerAdjustment) : Type 0 where
  pub cpu_period : IsPositive a.cpu_period
  pub cpu_quota : IsPositive a.cpu_quota
  pub cpu_shares : IsPositive a.cpu_shares
  pub memory_limit : IsPositive a.memory_limit
  pub oom_score_adj : IsScore a.oom_score_adj

set_amount_lem : (value : ℕ) → IsPositive (set_amount value none)
set_amount_lem value = ground arith

set_score_lem : (value : ℕ) → value < 2 ^ 64 → IsScore (set_score value none)
set_score_lem value word = ground arith

-- The score in the response is a pattern of 64 bits.
abbrev pub IsWord : Option LinuxContainerResources → Type 0
IsWord none = Unit {0}
IsWord (some r) = r.oom_score_adj < 2 ^ 64

with_resources_lem :
    (r : Option LinuxContainerResources) → IsWord r → IsInRange (with_resources r no_adjustment)
unfolding with_resources set_linux_resources
with_resources_lem none word = record {
  cpu_period = tt;
  cpu_quota = tt;
  cpu_shares = tt;
  memory_limit = tt;
  oom_score_adj = tt;
}
with_resources_lem (some r) word = record {
  cpu_period = set_amount_lem r.cpu_period;
  cpu_quota = set_amount_lem r.cpu_quota;
  cpu_shares = set_amount_lem r.cpu_shares;
  memory_limit = set_amount_lem r.memory_limit_in_bytes;
  oom_score_adj = set_score_lem r.oom_score_adj word;
}

with_annotations_lem :
    (annotations : Option (List (Text × Text))) (a : ContainerAdjustment)
    → IsInRange a
    → IsInRange (with_annotations annotations a)
unfolding with_annotations
with_annotations_lem none a v = v
with_annotations_lem (some annotations) a v = record {
  cpu_period = v.cpu_period;
  cpu_quota = v.cpu_quota;
  cpu_shares = v.cpu_shares;
  memory_limit = v.memory_limit;
  oom_score_adj = v.oom_score_adj;
}

with_envs_lem :
    (envs : Option (List (Text × Text))) (a : ContainerAdjustment)
    → IsInRange a
    → IsInRange (with_envs envs a)
unfolding with_envs
with_envs_lem none a v = v
with_envs_lem (some envs) a v = record {
  cpu_period = v.cpu_period;
  cpu_quota = v.cpu_quota;
  cpu_shares = v.cpu_shares;
  memory_limit = v.memory_limit;
  oom_score_adj = v.oom_score_adj;
}

some_adjustment : {a b : ContainerAdjustment} → some a ≡ some b → a ≡ b
some_adjustment h = cc

-- Whatever a hook answers, the periods, quotas, shares and memory limits that the NRI plugin asks
-- the runtime to set are positive int64, and an OOM score is an int64 from -1000 to 1000 and not 0.
-- The score of the answer is a pattern of 64 bits.
pub convert_to_ctr_adjustment-IsInRange :
    (response : ContainerResourceHookResponse) (a : ContainerAdjustment)
    → IsWord response.container_resources
    → convert_to_ctr_adjustment (some response) ≡ some a
    → IsInRange a
unfolding convert_to_ctr_adjustment
convert_to_ctr_adjustment-IsInRange response a word h = subst IsInRange (some_adjustment h) (
    with_envs_lem response.container_envs _ (
      with_annotations_lem response.container_annotations _
        (with_resources_lem response.container_resources word)))

-- ===== src/PcoreBinding/Agent/Matching.antt =====
-- hasTargetCPULimit of plugin/agent.go: which limit of CPUs is the target.
use native.Mathlib.Nat.{div-add-mod, le-div_iff_mul-le, div-lt_iff_lt-mul}
use cloud_native.Prelude.{ℕ, ◌+◌, ◌*◌, ◌/◌, ◌%◌, ◌^◌, ◌<◌, true, ◌&&◌, ◌==◌, ◌≡◌, ◌↔◌, ap, arith}
use cloud_native.PcoreBinding.Agent.{PodInfo, has_target_cpu_limit}

-- A division that gives 2 and leaves nothing
twice_iff : (q p : ℕ) → 0 < p → (((q / p == 2) && (q % p == 0)) ≡ true) ↔ (q ≡ 2 * p)
twice_iff q p h = (
  λ e.
      let quotient : q / p ≡ 2 = ground arith in
      let rest : q % p ≡ 0 = ground arith in
      let whole = div-add-mod q p in omega (arith, rw (quotient, rest) at whole),
  λ e.
      let low : 2 < q / p + 1 =
        omega (arith, (le-div_iff_mul-le {x = 2} {y = q} h).1 (omega arith)) in
      let high : q / p < 3 = (div-lt_iff_lt-mul {x = q} {y = 3} h).1 (omega arith) in
      let quotient : q / p ≡ 2 = omega arith in
      let rest : q % p ≡ 0 = omega (arith, div-add-mod q p, ap (λ d. p * d) quotient) in
      ground (arith, quotient, rest),
)

-- hasTargetCPULimit answers yes exactly when the limit is known, the period is positive, the quota
-- is not negative as an int64, and the quota is twice the period.
pub has_target_cpu_limit_iff :
    (pod : PodInfo)
    → pod.cpu_quota < 2 ^ 64
    → (has_target_cpu_limit pod ≡ true) ↔ (
        (pod.cpu_limit_known ≡ true)
        × (0 < pod.cpu_period)
        × (pod.cpu_quota < 2 ^ 63)
        × (pod.cpu_quota ≡ 2 * pod.cpu_period))
unfolding has_target_cpu_limit
has_target_cpu_limit_iff pod word = ground (arith, twice_iff pod.cpu_quota pod.cpu_period)

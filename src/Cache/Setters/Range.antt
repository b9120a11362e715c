-- ===== src/Cache/Setters/Range.antt =====
-- The setters let no negative amount and no impossible OOM score into a container.
use cloud_native.Prelude.{
  ℕ, ◌-◌, ◌^◌, ◌≤◌, ◌<◌, Bool, true, false, ◌||◌, Option, none, some, List, ◌≡◌, refl, ◌∙◌, sym, ap,
  ◌⊎◌, inl, inr, arith, get_elem?, Bool-cases, Option-cases, if◌then◌else◌, ◌==◌, subst,
}
use cloud_native.Word64.{is_neg, slt}
use cloud_native.TopologyAware.Request.Devices.{Text}
use cloud_native.Cache.Resources.{LinuxContainerResources}
use cloud_native.Cache.Containers.{Container}
use cloud_native.Cache.Store.{Cache, write_object, modify}
use cloud_native.Cache.Store.Valid.{changed, get_elem?-modify}
use cloud_native.Cache.Setters.{
  mark_pending, write_resource, or_new, set_cpu_period, set_cpu_quota, set_cpu_shares,
  set_memory_limit, set_oom_score_adj, set_cpuset_cpus, set_cpuset_mems, set_linux_resources,
}

-- A non-negative `int64`
abbrev pub IsAmount : ℕ → Type 0
IsAmount a = a < 2 ^ 63

-- An `int64` from -1000 to 1000
abbrev pub IsOomScore : ℕ → Type 0
IsOomScore a = (a ≤ 1000) ⊎ ((2 ^ 64 - 1000 ≤ a) × (a < 2 ^ 64))

pub record IsInRange (r : LinuxContainerResources) : Type 0 where
  pub cpu_period : IsAmount r.cpu_period
  pub cpu_quota : IsAmount r.cpu_quota
  pub cpu_shares : IsAmount r.cpu_shares
  pub memory : IsAmount r.memory_limit_in_bytes
  pub oom_score : IsOomScore r.oom_score_adj

-- What a container has of Linux resources is in range.
abbrev pub IsFit : Container → Type 0
IsFit o = (r : LinuxContainerResources) → o.linux_req ≡ some r → IsInRange r

abbrev pub IsWithin : List Container → Type 0
IsWithin heap = (a : ℕ) (o : Container) → get_elem? heap a ≡ some o → IsFit o

-- A call of a setter
pub data Setting : Type 0 where
  cpu_period : ℕ → Setting
  cpu_quota : ℕ → Setting
  cpu_shares : ℕ → Setting
  memory_limit : ℕ → Setting
  oom_score_adj : ℕ → Setting
  cpuset_cpus : Text → Setting
  cpuset_mems : Text → Setting
  linux_resources : Option LinuxContainerResources → Setting

unfoldable pub apply : Setting → ℕ → Cache → Cache
unfolding set_cpu_period set_cpu_quota set_cpu_shares set_memory_limit set_oom_score_adj
    set_cpuset_cpus set_cpuset_mems set_linux_resources mark_pending write_object
apply (cpu_period value) a c = set_cpu_period value a c
apply (cpu_quota value) a c = set_cpu_quota value a c
apply (cpu_shares value) a c = set_cpu_shares value a c
apply (memory_limit value) a c = set_memory_limit value a c
apply (oom_score_adj value) a c = set_oom_score_adj value a c
apply (cpuset_cpus value) a c = set_cpuset_cpus value a c
apply (cpuset_mems value) a c = set_cpuset_mems value a c
apply (linux_resources req) a c = set_linux_resources req a c

-- A value is a pattern of 64 bits; resources that are set as a whole are in range.
abbrev pub IsAllowed : Setting → Type 0
IsAllowed (cpu_period value) = value < 2 ^ 64
IsAllowed (cpu_quota value) = value < 2 ^ 64
IsAllowed (cpu_shares value) = value < 2 ^ 64
IsAllowed (memory_limit value) = value < 2 ^ 64
IsAllowed (oom_score_adj value) = value < 2 ^ 64
IsAllowed (cpuset_cpus value) = Unit {0}
IsAllowed (cpuset_mems value) = Unit {0}
IsAllowed (linux_resources req) = (r : LinuxContainerResources) → req ≡ some r → IsInRange r

oom_score_lem :
    (value : ℕ)
    → value < 2 ^ 64
    → (slt value (2 ^ 64 - 1000) || slt 1000 value) ≡ false
    → IsOomScore value
oom_score_lem value bound valid = ground arith

pub some_inj {ℓ} : {A : Type ℓ} {a b : A} → some a ≡ some b → a ≡ b
some_inj h = cc

none_lem : {P : Type 0} {o : Container} → none ≡ some o → P
none_lem h = cc

modify-IsWithin :
    (change : Container → Container) (heap : List Container) (a : ℕ)
    → ((o : Container) → IsFit o → IsFit (change o))
    → IsWithin heap
    → IsWithin (modify heap a change)
modify-IsWithin change heap a keeps v b o stored = elim (Bool-cases (a == b)) [
  | inl here ↦ elim (Option-cases (get_elem? heap b)) [
    | inl nothing ↦ none_lem (sym (ap (changed change) nothing) ∙ written here)
    | inr (old, e) ↦
        subst IsFit (some_inj (sym (ap (changed change) e) ∙ written here)) (keeps old (v b old e))
  ]
  | inr other ↦ v b o (sym (kept other) ∙ stored)
]
  where
    kept : (a == b) ≡ false → get_elem? (modify heap a change) b ≡ get_elem? heap b
    kept other = get_elem?-modify heap a b change ∙ rw other refl

    written : (a == b) ≡ true → changed change (get_elem? heap b) ≡ some o
    written here =
        sym (
          get_elem?-modify heap a b change
          ∙ ap (λ t. if t then changed change (get_elem? heap b) else get_elem? heap b) here)
        ∙ stored

or_new-IsInRange :
    (l : Option LinuxContainerResources)
    → ((r : LinuxContainerResources) → l ≡ some r → IsInRange r)
    → IsInRange (or_new l)
unfolding or_new
or_new-IsInRange none fit = record {
  cpu_period = ground arith;
  cpu_quota = ground arith;
  cpu_shares = ground arith;
  memory = ground arith;
  oom_score = ground arith;
}
or_new-IsInRange (some r) fit = fit r refl

write_resource-IsWithin :
    (change : LinuxContainerResources → LinuxContainerResources) (a : ℕ) (c : Cache)
    → ((r : LinuxContainerResources) → IsInRange r → IsInRange (change r))
    → IsWithin c.heap
    → IsWithin (write_resource change a c).heap
unfolding write_resource mark_pending write_object or_new
write_resource-IsWithin change a c keeps v =
    modify-IsWithin _ _ a (λ o fit. fit)
      (modify-IsWithin (λ o. record o { linux_req = some (change (or_new o.linux_req)) }) c.heap a
        (λ o fit r e.
          subst IsInRange (some_inj e)
            (keeps (or_new o.linux_req) (or_new-IsInRange o.linux_req fit)))
        v)

guarded :
    (b : Bool) (c d : Cache)
    → IsWithin c.heap
    → (b ≡ false → IsWithin d.heap)
    → IsWithin (if b then c else d).heap
guarded true c d v next = v
guarded false c d v next = next refl

amount_lem : (value : ℕ) → is_neg value ≡ false → IsAmount value
amount_lem value h = ground arith

-- The setters of a container, at any address and with any 64-bit value, keep the Linux resources of
-- all containers in range: amounts that are not negative and OOM scores from -1000 to 1000.
-- SetLinuxResources, which checks nothing, does so where the resources that it is given are nil or
-- in range.
pub apply-IsWithin :
    (s : Setting) (a : ℕ) (c : Cache) → IsAllowed s → IsWithin c.heap → IsWithin (apply s a c).heap
unfolding apply set_cpu_period set_cpu_quota set_cpu_shares set_memory_limit set_oom_score_adj
    set_cpuset_cpus set_cpuset_mems set_linux_resources mark_pending write_object
apply-IsWithin (cpu_period value) a c word v = guarded (is_neg value) c _ v (λ valid.
    write_resource-IsWithin (λ r. record r { cpu_period = value }) a c
      (λ r h. record {
        cpu_period = amount_lem value valid;
        cpu_quota = h.cpu_quota;
        cpu_shares = h.cpu_shares;
        memory = h.memory;
        oom_score = h.oom_score;
      })
      v)
apply-IsWithin (cpu_quota value) a c word v = guarded (is_neg value) c _ v (λ valid.
    write_resource-IsWithin (λ r. record r { cpu_quota = value }) a c
      (λ r h. record {
        cpu_period = h.cpu_period;
        cpu_quota = amount_lem value valid;
        cpu_shares = h.cpu_shares;
        memory = h.memory;
        oom_score = h.oom_score;
      })
      v)
apply-IsWithin (cpu_shares value) a c word v = guarded (is_neg value) c _ v (λ valid.
    write_resource-IsWithin (λ r. record r { cpu_shares = value }) a c
      (λ r h. record {
        cpu_period = h.cpu_period;
        cpu_quota = h.cpu_quota;
        cpu_shares = amount_lem value valid;
        memory = h.memory;
        oom_score = h.oom_score;
      })
      v)
apply-IsWithin (memory_limit value) a c word v = guarded (is_neg value) c _ v (λ valid.
    write_resource-IsWithin (λ r. record r { memory_limit_in_bytes = value }) a c
      (λ r h. record {
        cpu_period = h.cpu_period;
        cpu_quota = h.cpu_quota;
        cpu_shares = h.cpu_shares;
        memory = amount_lem value valid;
        oom_score = h.oom_score;
      })
      v)
apply-IsWithin (oom_score_adj value) a c word v =
    guarded (slt value (2 ^ 64 - 1000) || slt 1000 value) c _ v (λ valid.
      write_resource-IsWithin (λ r. record r { oom_score_adj = value }) a c
        (λ r h. record {
          cpu_period = h.cpu_period;
          cpu_quota = h.cpu_quota;
          cpu_shares = h.cpu_shares;
          memory = h.memory;
          oom_score = oom_score_lem value word valid;
        })
        v)
apply-IsWithin (cpuset_cpus value) a c word v =
    write_resource-IsWithin (λ r. record r { cpuset_cpus = value }) a c
      (λ r h. record {
        cpu_period = h.cpu_period;
        cpu_quota = h.cpu_quota;
        cpu_shares = h.cpu_shares;
        memory = h.memory;
        oom_score = h.oom_score;
      })
      v
apply-IsWithin (cpuset_mems value) a c word v =
    write_resource-IsWithin (λ r. record r { cpuset_mems = value }) a c
      (λ r h. record {
        cpu_period = h.cpu_period;
        cpu_quota = h.cpu_quota;
        cpu_shares = h.cpu_shares;
        memory = h.memory;
        oom_score = h.oom_score;
      })
      v
apply-IsWithin (linux_resources req) a c fit v =
    modify-IsWithin _ _ a (λ o fit. fit)
      (modify-IsWithin (λ o. record o { linux_req = req }) c.heap a (λ o old. fit) v)

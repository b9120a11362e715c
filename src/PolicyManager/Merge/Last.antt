-- ===== src/PolicyManager/Merge/Last.antt =====
-- Merged allocations: each field is the last value that an allocation sets, or that of the request.
use cloud_native.Prelude.{
  ℕ, Bool, true, false, Option, none, some, List, [], ◌∷◌, ◌≡◌, refl, ap, ◌∙◌, arith, ◌==◌,
  if◌then◌else◌,
}
use cloud_native.TopologyAware.Request.Devices.{Text, is_empty}
use cloud_native.Cache.Resources.{LinuxContainerResources}
use cloud_native.PolicyManager.Merge.{
  ensure_container_resources, merge_if, merge_cpu_resources, merge_cpu_set_resources,
  merge_memory_resources, merge, merge_all,
}

-- A value, if it is set, or else the default
abbrev pub pick : ℕ → ℕ → ℕ
pick v default = if v == 0 then default else v

abbrev pub pick_text : Text → Text → Text
pick_text v default = if is_empty v then default else v

-- The last value that is set, searched from the end
abbrev pub last_set : (LinuxContainerResources → ℕ) → List (Option LinuxContainerResources) → ℕ
last_set field [] = 0
last_set field (none ∷ allocs) = last_set field allocs
last_set field (some a ∷ allocs) = pick (last_set field allocs) (field a)

abbrev pub last_text :
    (LinuxContainerResources → Text) → List (Option LinuxContainerResources) → Text
last_text field [] = []
last_text field (none ∷ allocs) = last_text field allocs
last_text field (some a ∷ allocs) = pick_text (last_text field allocs) (field a)

-- The specification of a merge
abbrev pub overlay :
    List (Option LinuxContainerResources) → LinuxContainerResources → LinuxContainerResources
overlay allocs r = record r {
  cpu_period = pick (last_set (λ a. a.cpu_period) allocs) r.cpu_period;
  cpu_quota = pick (last_set (λ a. a.cpu_quota) allocs) r.cpu_quota;
  cpu_shares = pick (last_set (λ a. a.cpu_shares) allocs) r.cpu_shares;
  cpuset_mems = pick_text (last_text (λ a. a.cpuset_mems) allocs) r.cpuset_mems;
  cpuset_cpus = pick_text (last_text (λ a. a.cpuset_cpus) allocs) r.cpuset_cpus;
  memory_limit_in_bytes =
      pick (last_set (λ a. a.memory_limit_in_bytes) allocs) r.memory_limit_in_bytes;
  memory_swap_limit_in_bytes =
      pick (last_set (λ a. a.memory_swap_limit_in_bytes) allocs) r.memory_swap_limit_in_bytes;
}

-- A merge of one field keeps the others.
kept :
    {A : Type 0} (field : LinuxContainerResources → A) (b : Bool)
    (change : LinuxContainerResources → LinuxContainerResources)
    (resp : Option LinuxContainerResources)
    → ((r : LinuxContainerResources) → field (change r) ≡ field r)
    → field (ensure_container_resources (merge_if b change resp))
      ≡ field (ensure_container_resources resp)
unfolding merge_if ensure_container_resources
kept field true change resp same = refl
kept field false change resp same = same (ensure_container_resources resp)

written :
    {A : Type 0} (field : LinuxContainerResources → A) (b : Bool) (v : A)
    (change : LinuxContainerResources → LinuxContainerResources)
    (resp : Option LinuxContainerResources)
    → ((r : LinuxContainerResources) → field (change r) ≡ v)
    → field (ensure_container_resources (merge_if b change resp))
      ≡ (if b then field (ensure_container_resources resp) else v)
unfolding merge_if ensure_container_resources
written field true v change resp same = refl
written field false v change resp same = same (ensure_container_resources resp)

merge_cpu_period :
    (a : LinuxContainerResources) (resp : Option LinuxContainerResources)
    → (ensure_container_resources (merge (some a) resp)).cpu_period
      ≡ (if a.cpu_period == 0 then (ensure_container_resources resp).cpu_period else a.cpu_period)
unfolding merge merge_cpu_resources merge_cpu_set_resources merge_memory_resources
merge_cpu_period a resp =
    let r1 = merge_if (a.cpu_period == 0) (λ r. record r { cpu_period = a.cpu_period }) resp in
    let r2 = merge_if (a.cpu_quota == 0) (λ r. record r { cpu_quota = a.cpu_quota }) r1 in
    let r3 = merge_if (a.cpu_shares == 0) (λ r. record r { cpu_shares = a.cpu_shares }) r2 in
    let r4 = merge_if (is_empty a.cpuset_mems) (λ r. record r { cpuset_mems = a.cpuset_mems }) r3 in
    let r5 = merge_if (is_empty a.cpuset_cpus) (λ r. record r { cpuset_cpus = a.cpuset_cpus }) r4 in
    let r6 =
      merge_if (a.memory_limit_in_bytes == 0)
        (λ r. record r { memory_limit_in_bytes = a.memory_limit_in_bytes }) r5 in
    (kept (λ r. r.cpu_period) (a.memory_swap_limit_in_bytes == 0)
        (λ r. record r { memory_swap_limit_in_bytes = a.memory_swap_limit_in_bytes }) r6 (λ r. refl)
      ∙ (kept (λ r. r.cpu_period) (a.memory_limit_in_bytes == 0)
            (λ r. record r { memory_limit_in_bytes = a.memory_limit_in_bytes }) r5 (λ r. refl)
          ∙ (kept (λ r. r.cpu_period) (is_empty a.cpuset_cpus)
                (λ r. record r { cpuset_cpus = a.cpuset_cpus }) r4 (λ r. refl)
              ∙ (kept (λ r. r.cpu_period) (is_empty a.cpuset_mems)
                    (λ r. record r { cpuset_mems = a.cpuset_mems }) r3 (λ r. refl)
                  ∙ (kept (λ r. r.cpu_period) (a.cpu_shares == 0)
                        (λ r. record r { cpu_shares = a.cpu_shares }) r2 (λ r. refl)
                      ∙ (kept (λ r. r.cpu_period) (a.cpu_quota == 0)
                            (λ r. record r { cpu_quota = a.cpu_quota }) r1 (λ r. refl)
                          ∙ written (λ r. r.cpu_period) (a.cpu_period == 0) a.cpu_period
                              (λ r. record r { cpu_period = a.cpu_period }) resp (λ r. refl)))))))

merge_cpu_quota :
    (a : LinuxContainerResources) (resp : Option LinuxContainerResources)
    → (ensure_container_resources (merge (some a) resp)).cpu_quota
      ≡ (if a.cpu_quota == 0 then (ensure_container_resources resp).cpu_quota else a.cpu_quota)
unfolding merge merge_cpu_resources merge_cpu_set_resources merge_memory_resources
merge_cpu_quota a resp =
    let r1 = merge_if (a.cpu_period == 0) (λ r. record r { cpu_period = a.cpu_period }) resp in
    let r2 = merge_if (a.cpu_quota == 0) (λ r. record r { cpu_quota = a.cpu_quota }) r1 in
    let r3 = merge_if (a.cpu_shares == 0) (λ r. record r { cpu_shares = a.cpu_shares }) r2 in
    let r4 = merge_if (is_empty a.cpuset_mems) (λ r. record r { cpuset_mems = a.cpuset_mems }) r3 in
    let r5 = merge_if (is_empty a.cpuset_cpus) (λ r. record r { cpuset_cpus = a.cpuset_cpus }) r4 in
    let r6 =
      merge_if (a.memory_limit_in_bytes == 0)
        (λ r. record r { memory_limit_in_bytes = a.memory_limit_in_bytes }) r5 in
    (kept (λ r. r.cpu_quota) (a.memory_swap_limit_in_bytes == 0)
        (λ r. record r { memory_swap_limit_in_bytes = a.memory_swap_limit_in_bytes }) r6 (λ r. refl)
      ∙ (kept (λ r. r.cpu_quota) (a.memory_limit_in_bytes == 0)
            (λ r. record r { memory_limit_in_bytes = a.memory_limit_in_bytes }) r5 (λ r. refl)
          ∙ (kept (λ r. r.cpu_quota) (is_empty a.cpuset_cpus)
                (λ r. record r { cpuset_cpus = a.cpuset_cpus }) r4 (λ r. refl)
              ∙ (kept (λ r. r.cpu_quota) (is_empty a.cpuset_mems)
                    (λ r. record r { cpuset_mems = a.cpuset_mems }) r3 (λ r. refl)
                  ∙ (kept (λ r. r.cpu_quota) (a.cpu_shares == 0)
                        (λ r. record r { cpu_shares = a.cpu_shares }) r2 (λ r. refl)
                      ∙ (written (λ r. r.cpu_quota) (a.cpu_quota == 0) a.cpu_quota
                            (λ r. record r { cpu_quota = a.cpu_quota }) r1 (λ r. refl)
                          ∙ ap (λ v. if a.cpu_quota == 0 then v else a.cpu_quota)
                              (kept (λ r. r.cpu_quota) (a.cpu_period == 0)
                                (λ r. record r { cpu_period = a.cpu_period }) resp
                                (λ r. refl))))))))

merge_cpu_shares :
    (a : LinuxContainerResources) (resp : Option LinuxContainerResources)
    → (ensure_container_resources (merge (some a) resp)).cpu_shares
      ≡ (if a.cpu_shares == 0 then (ensure_container_resources resp).cpu_shares else a.cpu_shares)
unfolding merge merge_cpu_resources merge_cpu_set_resources merge_memory_resources
merge_cpu_shares a resp =
    let r1 = merge_if (a.cpu_period == 0) (λ r. record r { cpu_period = a.cpu_period }) resp in
    let r2 = merge_if (a.cpu_quota == 0) (λ r. record r { cpu_quota = a.cpu_quota }) r1 in
    let r3 = merge_if (a.cpu_shares == 0) (λ r. record r { cpu_shares = a.cpu_shares }) r2 in
    let r4 = merge_if (is_empty a.cpuset_mems) (λ r. record r { cpuset_mems = a.cpuset_mems }) r3 in
    let r5 = merge_if (is_empty a.cpuset_cpus) (λ r. record r { cpuset_cpus = a.cpuset_cpus }) r4 in
    let r6 =
      merge_if (a.memory_limit_in_bytes == 0)
        (λ r. record r { memory_limit_in_bytes = a.memory_limit_in_bytes }) r5 in
    (kept (λ r. r.cpu_shares) (a.memory_swap_limit_in_bytes == 0)
        (λ r. record r { memory_swap_limit_in_bytes = a.memory_swap_limit_in_bytes }) r6 (λ r. refl)
      ∙ (kept (λ r. r.cpu_shares) (a.memory_limit_in_bytes == 0)
            (λ r. record r { memory_limit_in_bytes = a.memory_limit_in_bytes }) r5 (λ r. refl)
          ∙ (kept (λ r. r.cpu_shares) (is_empty a.cpuset_cpus)
                (λ r. record r { cpuset_cpus = a.cpuset_cpus }) r4 (λ r. refl)
              ∙ (kept (λ r. r.cpu_shares) (is_empty a.cpuset_mems)
                    (λ r. record r { cpuset_mems = a.cpuset_mems }) r3 (λ r. refl)
                  ∙ (written (λ r. r.cpu_shares) (a.cpu_shares == 0) a.cpu_shares
                        (λ r. record r { cpu_shares = a.cpu_shares }) r2 (λ r. refl)
                      ∙ ap (λ v. if a.cpu_shares == 0 then v else a.cpu_shares)
                          ((kept (λ r. r.cpu_shares) (a.cpu_quota == 0)
                              (λ r. record r { cpu_quota = a.cpu_quota }) r1 (λ r. refl)
                            ∙ kept (λ r. r.cpu_shares) (a.cpu_period == 0)
                                (λ r. record r { cpu_period = a.cpu_period }) resp
                                (λ r. refl))))))))

merge_cpuset_mems :
    (a : LinuxContainerResources) (resp : Option LinuxContainerResources)
    → (ensure_container_resources (merge (some a) resp)).cpuset_mems ≡ (
        if is_empty a.cpuset_mems
        then (ensure_container_resources resp).cpuset_mems
        else a.cpuset_mems)
unfolding merge merge_cpu_resources merge_cpu_set_resources merge_memory_resources
merge_cpuset_mems a resp =
    let r1 = merge_if (a.cpu_period == 0) (λ r. record r { cpu_period = a.cpu_period }) resp in
    let r2 = merge_if (a.cpu_quota == 0) (λ r. record r { cpu_quota = a.cpu_quota }) r1 in
    let r3 = merge_if (a.cpu_shares == 0) (λ r. record r { cpu_shares = a.cpu_shares }) r2 in
    let r4 = merge_if (is_empty a.cpuset_mems) (λ r. record r { cpuset_mems = a.cpuset_mems }) r3 in
    let r5 = merge_if (is_empty a.cpuset_cpus) (λ r. record r { cpuset_cpus = a.cpuset_cpus }) r4 in
    let r6 =
      merge_if (a.memory_limit_in_bytes == 0)
        (λ r. record r { memory_limit_in_bytes = a.memory_limit_in_bytes }) r5 in
    (kept (λ r. r.cpuset_mems) (a.memory_swap_limit_in_bytes == 0)
        (λ r. record r { memory_swap_limit_in_bytes = a.memory_swap_limit_in_bytes }) r6 (λ r. refl)
      ∙ (kept (λ r. r.cpuset_mems) (a.memory_limit_in_bytes == 0)
            (λ r. record r { memory_limit_in_bytes = a.memory_limit_in_bytes }) r5 (λ r. refl)
          ∙ (kept (λ r. r.cpuset_mems) (is_empty a.cpuset_cpus)
                (λ r. record r { cpuset_cpus = a.cpuset_cpus }) r4 (λ r. refl)
              ∙ (written (λ r. r.cpuset_mems) (is_empty a.cpuset_mems) a.cpuset_mems
                    (λ r. record r { cpuset_mems = a.cpuset_mems }) r3 (λ r. refl)
                  ∙ ap (λ v. if is_empty a.cpuset_mems then v else a.cpuset_mems)
                      ((kept (λ r. r.cpuset_mems) (a.cpu_shares == 0)
                          (λ r. record r { cpu_shares = a.cpu_shares }) r2 (λ r. refl)
                        ∙ (kept (λ r. r.cpuset_mems) (a.cpu_quota == 0)
                              (λ r. record r { cpu_quota = a.cpu_quota }) r1 (λ r. refl)
                            ∙ kept (λ r. r.cpuset_mems) (a.cpu_period == 0)
                                (λ r. record r { cpu_period = a.cpu_period }) resp
                                (λ r. refl))))))))

merge_cpuset_cpus :
    (a : LinuxContainerResources) (resp : Option LinuxContainerResources)
    → (ensure_container_resources (merge (some a) resp)).cpuset_cpus ≡ (
        if is_empty a.cpuset_cpus
        then (ensure_container_resources resp).cpuset_cpus
        else a.cpuset_cpus)
unfolding merge merge_cpu_resources merge_cpu_set_resources merge_memory_resources
merge_cpuset_cpus a resp =
    let r1 = merge_if (a.cpu_period == 0) (λ r. record r { cpu_period = a.cpu_period }) resp in
    let r2 = merge_if (a.cpu_quota == 0) (λ r. record r { cpu_quota = a.cpu_quota }) r1 in
    let r3 = merge_if (a.cpu_shares == 0) (λ r. record r { cpu_shares = a.cpu_shares }) r2 in
    let r4 = merge_if (is_empty a.cpuset_mems) (λ r. record r { cpuset_mems = a.cpuset_mems }) r3 in
    let r5 = merge_if (is_empty a.cpuset_cpus) (λ r. record r { cpuset_cpus = a.cpuset_cpus }) r4 in
    let r6 =
      merge_if (a.memory_limit_in_bytes == 0)
        (λ r. record r { memory_limit_in_bytes = a.memory_limit_in_bytes }) r5 in
    (kept (λ r. r.cpuset_cpus) (a.memory_swap_limit_in_bytes == 0)
        (λ r. record r { memory_swap_limit_in_bytes = a.memory_swap_limit_in_bytes }) r6 (λ r. refl)
      ∙ (kept (λ r. r.cpuset_cpus) (a.memory_limit_in_bytes == 0)
            (λ r. record r { memory_limit_in_bytes = a.memory_limit_in_bytes }) r5 (λ r. refl)
          ∙ (written (λ r. r.cpuset_cpus) (is_empty a.cpuset_cpus) a.cpuset_cpus
                (λ r. record r { cpuset_cpus = a.cpuset_cpus }) r4 (λ r. refl)
              ∙ ap (λ v. if is_empty a.cpuset_cpus then v else a.cpuset_cpus)
                  ((kept (λ r. r.cpuset_cpus) (is_empty a.cpuset_mems)
                      (λ r. record r { cpuset_mems = a.cpuset_mems }) r3 (λ r. refl)
                    ∙ (kept (λ r. r.cpuset_cpus) (a.cpu_shares == 0)
                          (λ r. record r { cpu_shares = a.cpu_shares }) r2 (λ r. refl)
                        ∙ (kept (λ r. r.cpuset_cpus) (a.cpu_quota == 0)
                              (λ r. record r { cpu_quota = a.cpu_quota }) r1 (λ r. refl)
                            ∙ kept (λ r. r.cpuset_cpus) (a.cpu_period == 0)
                                (λ r. record r { cpu_period = a.cpu_period }) resp
                                (λ r. refl))))))))

merge_memory_limit_in_bytes :
    (a : LinuxContainerResources) (resp : Option LinuxContainerResources)
    → (ensure_container_resources (merge (some a) resp)).memory_limit_in_bytes ≡ (
        if a.memory_limit_in_bytes == 0
        then (ensure_container_resources resp).memory_limit_in_bytes
        else a.memory_limit_in_bytes)
unfolding merge merge_cpu_resources merge_cpu_set_resources merge_memory_resources
merge_memory_limit_in_bytes a resp =
    let r1 = merge_if (a.cpu_period == 0) (λ r. record r { cpu_period = a.cpu_period }) resp in
    let r2 = merge_if (a.cpu_quota == 0) (λ r. record r { cpu_quota = a.cpu_quota }) r1 in
    let r3 = merge_if (a.cpu_shares == 0) (λ r. record r { cpu_shares = a.cpu_shares }) r2 in
    let r4 = merge_if (is_empty a.cpuset_mems) (λ r. record r { cpuset_mems = a.cpuset_mems }) r3 in
    let r5 = merge_if (is_empty a.cpuset_cpus) (λ r. record r { cpuset_cpus = a.cpuset_cpus }) r4 in
    let r6 =
      merge_if (a.memory_limit_in_bytes == 0)
        (λ r. record r { memory_limit_in_bytes = a.memory_limit_in_bytes }) r5 in
    (kept (λ r. r.memory_limit_in_bytes) (a.memory_swap_limit_in_bytes == 0)
        (λ r. record r { memory_swap_limit_in_bytes = a.memory_swap_limit_in_bytes }) r6 (λ r. refl)
      ∙ (written (λ r. r.memory_limit_in_bytes) (a.memory_limit_in_bytes == 0)
            a.memory_limit_in_bytes
            (λ r. record r { memory_limit_in_bytes = a.memory_limit_in_bytes }) r5 (λ r. refl)
          ∙ ap (λ v. if a.memory_limit_in_bytes == 0 then v else a.memory_limit_in_bytes)
              ((kept (λ r. r.memory_limit_in_bytes) (is_empty a.cpuset_cpus)
                  (λ r. record r { cpuset_cpus = a.cpuset_cpus }) r4 (λ r. refl)
                ∙ (kept (λ r. r.memory_limit_in_bytes) (is_empty a.cpuset_mems)
                      (λ r. record r { cpuset_mems = a.cpuset_mems }) r3 (λ r. refl)
                    ∙ (kept (λ r. r.memory_limit_in_bytes) (a.cpu_shares == 0)
                          (λ r. record r { cpu_shares = a.cpu_shares }) r2 (λ r. refl)
                        ∙ (kept (λ r. r.memory_limit_in_bytes) (a.cpu_quota == 0)
                              (λ r. record r { cpu_quota = a.cpu_quota }) r1 (λ r. refl)
                            ∙ kept (λ r. r.memory_limit_in_bytes) (a.cpu_period == 0)
                                (λ r. record r { cpu_period = a.cpu_period }) resp
                                (λ r. refl))))))))

merge_memory_swap_limit_in_bytes :
    (a : LinuxContainerResources) (resp : Option LinuxContainerResources)
    → (ensure_container_resources (merge (some a) resp)).memory_swap_limit_in_bytes ≡ (
        if a.memory_swap_limit_in_bytes == 0
        then (ensure_container_resources resp).memory_swap_limit_in_bytes
        else a.memory_swap_limit_in_bytes)
unfolding merge merge_cpu_resources merge_cpu_set_resources merge_memory_resources
merge_memory_swap_limit_in_bytes a resp =
    let r1 = merge_if (a.cpu_period == 0) (λ r. record r { cpu_period = a.cpu_period }) resp in
    let r2 = merge_if (a.cpu_quota == 0) (λ r. record r { cpu_quota = a.cpu_quota }) r1 in
    let r3 = merge_if (a.cpu_shares == 0) (λ r. record r { cpu_shares = a.cpu_shares }) r2 in
    let r4 = merge_if (is_empty a.cpuset_mems) (λ r. record r { cpuset_mems = a.cpuset_mems }) r3 in
    let r5 = merge_if (is_empty a.cpuset_cpus) (λ r. record r { cpuset_cpus = a.cpuset_cpus }) r4 in
    let r6 =
      merge_if (a.memory_limit_in_bytes == 0)
        (λ r. record r { memory_limit_in_bytes = a.memory_limit_in_bytes }) r5 in
    (written (λ r. r.memory_swap_limit_in_bytes) (a.memory_swap_limit_in_bytes == 0)
        a.memory_swap_limit_in_bytes
        (λ r. record r { memory_swap_limit_in_bytes = a.memory_swap_limit_in_bytes }) r6 (λ r. refl)
      ∙ ap (λ v. if a.memory_swap_limit_in_bytes == 0 then v else a.memory_swap_limit_in_bytes)
          ((kept (λ r. r.memory_swap_limit_in_bytes) (a.memory_limit_in_bytes == 0)
              (λ r. record r { memory_limit_in_bytes = a.memory_limit_in_bytes }) r5 (λ r. refl)
            ∙ (kept (λ r. r.memory_swap_limit_in_bytes) (is_empty a.cpuset_cpus)
                  (λ r. record r { cpuset_cpus = a.cpuset_cpus }) r4 (λ r. refl)
                ∙ (kept (λ r. r.memory_swap_limit_in_bytes) (is_empty a.cpuset_mems)
                      (λ r. record r { cpuset_mems = a.cpuset_mems }) r3 (λ r. refl)
                    ∙ (kept (λ r. r.memory_swap_limit_in_bytes) (a.cpu_shares == 0)
                          (λ r. record r { cpu_shares = a.cpu_shares }) r2 (λ r. refl)
                        ∙ (kept (λ r. r.memory_swap_limit_in_bytes) (a.cpu_quota == 0)
                              (λ r. record r { cpu_quota = a.cpu_quota }) r1 (λ r. refl)
                            ∙ kept (λ r. r.memory_swap_limit_in_bytes) (a.cpu_period == 0)
                                (λ r. record r { cpu_period = a.cpu_period }) resp
                                (λ r. refl))))))))

merge_oom_score_adj :
    (a : LinuxContainerResources) (resp : Option LinuxContainerResources)
    → (ensure_container_resources (merge (some a) resp)).oom_score_adj
      ≡ (ensure_container_resources resp).oom_score_adj
unfolding merge merge_cpu_resources merge_cpu_set_resources merge_memory_resources
merge_oom_score_adj a resp =
    let r1 = merge_if (a.cpu_period == 0) (λ r. record r { cpu_period = a.cpu_period }) resp in
    let r2 = merge_if (a.cpu_quota == 0) (λ r. record r { cpu_quota = a.cpu_quota }) r1 in
    let r3 = merge_if (a.cpu_shares == 0) (λ r. record r { cpu_shares = a.cpu_shares }) r2 in
    let r4 = merge_if (is_empty a.cpuset_mems) (λ r. record r { cpuset_mems = a.cpuset_mems }) r3 in
    let r5 = merge_if (is_empty a.cpuset_cpus) (λ r. record r { cpuset_cpus = a.cpuset_cpus }) r4 in
    let r6 =
      merge_if (a.memory_limit_in_bytes == 0)
        (λ r. record r { memory_limit_in_bytes = a.memory_limit_in_bytes }) r5 in
    (kept (λ r. r.oom_score_adj) (a.memory_swap_limit_in_bytes == 0)
        (λ r. record r { memory_swap_limit_in_bytes = a.memory_swap_limit_in_bytes }) r6 (λ r. refl)
      ∙ (kept (λ r. r.oom_score_adj) (a.memory_limit_in_bytes == 0)
            (λ r. record r { memory_limit_in_bytes = a.memory_limit_in_bytes }) r5 (λ r. refl)
          ∙ (kept (λ r. r.oom_score_adj) (is_empty a.cpuset_cpus)
                (λ r. record r { cpuset_cpus = a.cpuset_cpus }) r4 (λ r. refl)
              ∙ (kept (λ r. r.oom_score_adj) (is_empty a.cpuset_mems)
                    (λ r. record r { cpuset_mems = a.cpuset_mems }) r3 (λ r. refl)
                  ∙ (kept (λ r. r.oom_score_adj) (a.cpu_shares == 0)
                        (λ r. record r { cpu_shares = a.cpu_shares }) r2 (λ r. refl)
                      ∙ (kept (λ r. r.oom_score_adj) (a.cpu_quota == 0)
                            (λ r. record r { cpu_quota = a.cpu_quota }) r1 (λ r. refl)
                          ∙ kept (λ r. r.oom_score_adj) (a.cpu_period == 0)
                              (λ r. record r { cpu_period = a.cpu_period }) resp (λ r. refl)))))))

pick_assoc : (v x d : ℕ) → pick v (pick x d) ≡ pick (pick v x) d
pick_assoc v x d = ground arith

pick_text_assoc : (v x d : Text) → pick_text v (pick_text x d) ≡ pick_text (pick_text v x) d
pick_text_assoc [] x d = refl
pick_text_assoc (c ∷ v) x d = refl

overlay_step :
    (allocs : List (Option LinuxContainerResources)) (a : LinuxContainerResources)
    (resp : Option LinuxContainerResources)
    → overlay allocs (ensure_container_resources (merge (some a) resp))
      ≡ overlay (some a ∷ allocs) (ensure_container_resources resp)
overlay_step allocs a resp =
    let r = ensure_container_resources resp in
    let p_cpu_period =
      ap (pick (last_set (λ a. a.cpu_period) allocs)) (merge_cpu_period a resp)
      ∙ pick_assoc (last_set (λ a. a.cpu_period) allocs) a.cpu_period r.cpu_period in
    let p_cpu_quota =
      ap (pick (last_set (λ a. a.cpu_quota) allocs)) (merge_cpu_quota a resp)
      ∙ pick_assoc (last_set (λ a. a.cpu_quota) allocs) a.cpu_quota r.cpu_quota in
    let p_cpu_shares =
      ap (pick (last_set (λ a. a.cpu_shares) allocs)) (merge_cpu_shares a resp)
      ∙ pick_assoc (last_set (λ a. a.cpu_shares) allocs) a.cpu_shares r.cpu_shares in
    let p_cpuset_mems =
      ap (pick_text (last_text (λ a. a.cpuset_mems) allocs)) (merge_cpuset_mems a resp)
      ∙ pick_text_assoc (last_text (λ a. a.cpuset_mems) allocs) a.cpuset_mems r.cpuset_mems in
    let p_cpuset_cpus =
      ap (pick_text (last_text (λ a. a.cpuset_cpus) allocs)) (merge_cpuset_cpus a resp)
      ∙ pick_text_assoc (last_text (λ a. a.cpuset_cpus) allocs) a.cpuset_cpus r.cpuset_cpus in
    let p_memory_limit_in_bytes =
      ap (pick (last_set (λ a. a.memory_limit_in_bytes) allocs))
        (merge_memory_limit_in_bytes a resp)
      ∙ pick_assoc (last_set (λ a. a.memory_limit_in_bytes) allocs) a.memory_limit_in_bytes
          r.memory_limit_in_bytes in
    let p_memory_swap_limit_in_bytes =
      ap (pick (last_set (λ a. a.memory_swap_limit_in_bytes) allocs))
        (merge_memory_swap_limit_in_bytes a resp)
      ∙ pick_assoc (last_set (λ a. a.memory_swap_limit_in_bytes) allocs)
          a.memory_swap_limit_in_bytes r.memory_swap_limit_in_bytes in
    λ i. record {
      cpu_period = p_cpu_period i;
      cpu_quota = p_cpu_quota i;
      cpu_shares = p_cpu_shares i;
      cpuset_mems = p_cpuset_mems i;
      cpuset_cpus = p_cpuset_cpus i;
      memory_limit_in_bytes = p_memory_limit_in_bytes i;
      memory_swap_limit_in_bytes = p_memory_swap_limit_in_bytes i;
      oom_score_adj = merge_oom_score_adj a resp i;
    }

-- After mergeAllocations each field of the response's resources is the last value that is not zero
-- or empty among the allocations, or else that of the request; the OOM score is that of the
-- request.
pub ensure-merge_all :
    (allocs : List (Option LinuxContainerResources)) (resp : Option LinuxContainerResources)
    → ensure_container_resources (merge_all allocs resp)
      ≡ overlay allocs (ensure_container_resources resp)
unfolding merge_all merge
ensure-merge_all [] resp = refl
ensure-merge_all (none ∷ allocs) resp = ensure-merge_all allocs resp
ensure-merge_all (some a ∷ allocs) resp =
    ensure-merge_all allocs (merge (some a) resp) ∙ overlay_step allocs a resp

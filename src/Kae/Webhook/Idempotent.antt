-- ===== src/Kae/Webhook/Idempotent.antt =====
-- A second call of the webhook changes nothing.
use cloud_native.Prelude.{
  ℕ, zero, suc, Bool, true, false, ◌||◌, not, some, List, [], ◌∷◌, ◌++◌, ◌≡◌, refl, ap, ap₂, ◌∙◌,
  sym, subst, arith, length, leb, get_elem?, Bool-cases, inl, inr,
}
use mathlib.Core.List.{append-nil}
use cloud_native.Word64.{is_neg, is_pos}
use cloud_native.TopologyAware.Request.Devices.{Text, is_empty, trim_space}
use cloud_native.Cache.Table.{put}
use cloud_native.Cache.Pods.{has_prefix}
use cloud_native.Kae.Webhook.{
  EnvVar, KaeContainer, KaePod, InjectionConfig, mutated, kae_resource_prefix,
  normalize_resource_name, should_inject_namespace, names, missing_env_vars, modify_at,
  resource_list_has_kae, list_of, any_has_kae, has_kae_resource, append_missing_env_vars,
  env_changed, put_resource, inject, inject_env, inject_into, guarded, mutate_pod_for_kae_injection,
}
use cloud_native.Kae.Webhook.Env.{missing_env_vars-appended}

module _ {ℓ} {A : Type ℓ} (change : A → A) where
  length-modify_at : (xs : List A) (i : ℕ) → length (modify_at change xs i) ≡ length xs
  unfolding modify_at
  length-modify_at [] i = refl
  length-modify_at (x ∷ xs) zero = refl
  length-modify_at (x ∷ xs) (suc i) = ap suc (length-modify_at xs i)

  modify_at-modify_at :
      ((x : A) → change (change x) ≡ change x)
      → (xs : List A) (i : ℕ) → modify_at change (modify_at change xs i) i ≡ modify_at change xs i
  unfolding modify_at
  modify_at-modify_at h [] i = refl
  modify_at-modify_at h (x ∷ xs) zero = ap (λ y. y ∷ xs) (h x)
  modify_at-modify_at h (x ∷ xs) (suc i) = ap (λ l. x ∷ l) (modify_at-modify_at h xs i)

module _ {Q : Type 0} where
  append_missing_env_vars_twice :
      (env : List EnvVar) (c : KaeContainer Q)
      → append_missing_env_vars env (append_missing_env_vars env c) ≡ append_missing_env_vars env c
  unfolding append_missing_env_vars
  append_missing_env_vars_twice env c =
      let done = missing_env_vars-appended c.env env in
      ap (λ l. record c { env = l })
        (ap (λ l. (c.env ++ missing_env_vars (names c.env) env) ++ l) done ∙ append-nil _)

  env_changed-modify_at :
      (env : List EnvVar) (containers : List (KaeContainer Q)) (i : ℕ)
      → env_changed env (get_elem? (modify_at (append_missing_env_vars env) containers i) i) ≡ false
  unfolding env_changed modify_at append_missing_env_vars
  env_changed-modify_at env [] i = refl
  env_changed-modify_at env (c ∷ containers) zero =
      ap (λ l. not (is_empty l)) (missing_env_vars-appended c.env env)
  env_changed-modify_at env (c ∷ containers) (suc i) = env_changed-modify_at env containers i

  any_has_kae-append_missing_env_vars :
      (env : List EnvVar) (containers : List (KaeContainer Q)) (i : ℕ)
      → any_has_kae (modify_at (append_missing_env_vars env) containers i) ≡ any_has_kae containers
  unfolding any_has_kae modify_at append_missing_env_vars
  any_has_kae-append_missing_env_vars env [] i = refl
  any_has_kae-append_missing_env_vars env (c ∷ containers) zero = refl
  any_has_kae-append_missing_env_vars env (c ∷ containers) (suc i) =
      rw (any_has_kae-append_missing_env_vars env containers i) refl

  any_has_kae-put_resource :
      (name : Text) (quantity : Q) (containers : List (KaeContainer Q)) (i : ℕ)
      → has_prefix name kae_resource_prefix ≡ true
      → leb (length containers) i ≡ false
      → any_has_kae (modify_at (put_resource name quantity) containers i) ≡ true
  unfolding any_has_kae modify_at put_resource put list_of resource_list_has_kae
  any_has_kae-put_resource name quantity [] i h inside = ground arith
  any_has_kae-put_resource name quantity (c ∷ containers) zero h inside = rw h refl
  any_has_kae-put_resource name quantity (c ∷ containers) (suc i) h inside =
      ground (arith, any_has_kae-put_resource name quantity containers i h)

  mutated_inj : {p q : KaePod Q} {a b : Bool} → mutated p a ≡ mutated q b → p ≡ q
  mutated_inj h = cc

  module _ (new_quantity : ℕ → Q) (is_qualified_name : Text → Bool) (config : InjectionConfig) where
    abbrev with_env : KaePod Q → KaePod Q
    with_env pod = record pod {
      containers =
          modify_at (append_missing_env_vars config.env_vars) pod.containers
            config.target_container;
    }

    has_kae_resource-with_env :
        (pod : KaePod Q) → has_kae_resource (with_env pod) ≡ has_kae_resource pod
    unfolding has_kae_resource
    has_kae_resource-with_env pod =
        rw
          (any_has_kae-append_missing_env_vars config.env_vars pod.containers
            config.target_container)
          refl

    inject_env-with_env :
        (pod : KaePod Q)
        → inject_env new_quantity is_qualified_name config (with_env pod) false
          ≡ mutated (with_env pod) false
    unfolding inject_env
    inject_env-with_env pod =
        let i = config.target_container in
        ap₂ mutated
          (ap (λ l. record pod { containers = l })
            (modify_at-modify_at (append_missing_env_vars config.env_vars)
              (append_missing_env_vars_twice config.env_vars) pod.containers i))
          (ap (λ b. b || false) (env_changed-modify_at config.env_vars pod.containers i))

    inject_into-with_env :
        (pod : KaePod Q)
        → has_kae_resource pod ≡ true
        → inject_into new_quantity is_qualified_name config (with_env pod)
          ≡ mutated (with_env pod) false
    unfolding inject_into
    inject_into-with_env pod h = rw (has_kae_resource-with_env pod, h) (inject_env-with_env pod)

    has_kae_resource-inject :
        (pod : KaePod Q)
        → has_prefix (normalize_resource_name config.default_resource) kae_resource_prefix ≡ true
        → leb (length pod.containers) config.target_container ≡ false
        → has_kae_resource (inject new_quantity is_qualified_name config pod) ≡ true
    unfolding has_kae_resource inject
    has_kae_resource-inject pod h inside =
        ap (λ b. b || any_has_kae pod.init_containers)
          (any_has_kae-put_resource _ _ pod.containers config.target_container h inside)

    settled :
        (base q : KaePod Q)
        → has_kae_resource base ≡ true
        → with_env base ≡ q
        → (inject_into new_quantity is_qualified_name config q ≡ mutated q false)
          × (length q.containers ≡ length base.containers)
    settled base q h e =
        subst
          (λ q.
            (inject_into new_quantity is_qualified_name config q ≡ mutated q false)
            × (length q.containers ≡ length base.containers))
          e
          (inject_into-with_env base h, length-modify_at _ base.containers config.target_container)

    inject_into_twice :
        (pod q : KaePod Q) (b : Bool)
        → has_prefix (normalize_resource_name config.default_resource) kae_resource_prefix ≡ true
        → leb (length pod.containers) config.target_container ≡ false
        → inject_into new_quantity is_qualified_name config pod ≡ mutated q b
        → (inject_into new_quantity is_qualified_name config q ≡ mutated q false)
          × (length q.containers ≡ length pod.containers)
    unfolding inject_into inject_env inject
    inject_into_twice pod q b h inside e = elim (Bool-cases (has_kae_resource pod)) [
      | inl has ↦ settled pod q has (mutated_inj (rw has at e))
      | inr lacks ↦
          let injected = inject new_quantity is_qualified_name config pod in
          let (same, len) =
            settled injected q (has_kae_resource-inject pod h inside)
              (mutated_inj (rw lacks at e)) in
          (same, len ∙ length-modify_at _ pod.containers config.target_container)
    ]

    guarded_passes :
        (pod q : KaePod Q) (b : Bool)
        → guarded new_quantity is_qualified_name config pod ≡ mutated q b
        → ((is_neg config.target_container ≡ false)
            × (leb (length pod.containers) config.target_container ≡ false)
            × (is_pos config.default_count ≡ true)
            × (is_empty (trim_space config.default_resource) ≡ false)
            × (is_qualified_name (normalize_resource_name config.default_resource) ≡ true))
          × (inject_into new_quantity is_qualified_name config pod ≡ mutated q b)
    unfolding guarded
    guarded_passes pod q b h = ground arith

    is_empty-length :
        (xs : List (KaeContainer Q)) (i : ℕ) → leb (length xs) i ≡ false → is_empty xs ≡ false
    is_empty-length [] i h = ground arith
    is_empty-length (x ∷ xs) i h = refl

    guarded_twice :
        (pod q : KaePod Q) (b : Bool)
        → has_prefix (normalize_resource_name config.default_resource) kae_resource_prefix ≡ true
        → guarded new_quantity is_qualified_name config pod ≡ mutated q b
        → guarded new_quantity is_qualified_name config q ≡ mutated q false
    unfolding guarded
    guarded_twice pod q b h e =
        let ((not_neg, inside, positive, named, valid), into) = guarded_passes pod q b e in
        let (again, len) = inject_into_twice pod q b h inside into in
        let still : leb (length q.containers) config.target_container ≡ false = rw len inside in
        rw (is_empty-length q.containers _ still, not_neg, still, positive, named, valid) again

    -- The webhook of KAE is idempotent: on a pod that it has mutated without an error it does not
    -- refuse, changes nothing, and says so. The name of the default resource, when it is
    -- normalized, begins with the prefix of KAE; namespace, configuration and pod are any.
    pub mutate_pod_for_kae_injection_twice :
        (namespace : Text) (pod q : KaePod Q) (b : Bool)
        → has_prefix (normalize_resource_name config.default_resource) kae_resource_prefix ≡ true
        → mutate_pod_for_kae_injection new_quantity is_qualified_name (some pod) namespace config
          ≡ mutated q b
        → mutate_pod_for_kae_injection new_quantity is_qualified_name (some q) namespace config
          ≡ mutated q false
    unfolding mutate_pod_for_kae_injection
    mutate_pod_for_kae_injection_twice namespace pod q b h e =
        elim (Bool-cases (
          not config.enabled
          || not (
              should_inject_namespace namespace config.included_namespaces
                config.excluded_namespaces))) [
                  | inl out ↦ rw out refl
                  | inr inn ↦ rw inn (guarded_twice pod q b h (sym (rw inn refl) ∙ e))
                ]

-- ===== src/Kae/Webhook.antt =====
-- webhook/pod_mutator.go of pkg/kae-device-plugin, with the lists of options.go and the handler of
-- pod_webhook.go: pods are given an accelerator and environment variables. A Quantity and the test
-- of qualified names are Kubernetes' own, and parameters.
pub mod Env
pub mod Idempotent
pub mod Options
mod Examples
use cloud_native.Prelude.{
  ℕ, zero, suc, Bool, true, false, ◌||◌, not, Option, none, some, List, [], ◌∷◌, ◌++◌, length, leb,
  get_elem?, if◌then◌else◌,
}
use cloud_native.Word64.{is_neg, is_pos}
use cloud_native.TopologyAware.Request.Devices.{Text, codes, is_empty, trim_space, split, has_infix}
use cloud_native.TopologyAware.Filter.{text_eq}
use cloud_native.PcoreBinding.Topology.{has_text}
use cloud_native.Cache.Table.{put}
use cloud_native.Cache.Pods.{has_prefix}
use cloud_native.Server.DockerUtils.{cut}

pub record EnvVar : Type 0 where
  pub name : Text
  pub value : Text

-- The fields of a container that are read or written; a nil ResourceList is `none`.
pub record KaeContainer (Q : Type 0) : Type 0 where
  pub requests : Option (List (Text × Q))
  pub limits : Option (List (Text × Q))
  pub env : List EnvVar

pub record KaePod (Q : Type 0) : Type 0 where
  pub namespace : Text
  pub containers : List (KaeContainer Q)
  pub init_containers : List (KaeContainer Q)

-- `default_count` is an `int64`, `target_container` an `int`.
pub record InjectionConfig : Type 0 where
  pub enabled : Bool
  pub default_resource : Text
  pub default_count : ℕ
  pub target_container : ℕ
  pub included_namespaces : List Text
  pub excluded_namespaces : List Text
  pub env_vars : List EnvVar

pub data MutationError : Type 0 where
  nil_pod no_containers target_out_of_range count_not_positive empty_resource invalid_resource :
      MutationError

-- The error, which leaves the pod, or the pod and whether it was changed.
pub data Mutation (Q : Type 0) : Type 0 where
  refused : MutationError → Mutation Q
  mutated : KaePod Q → Bool → Mutation Q

abbrev pub kae_resource_prefix : Text
kae_resource_prefix = codes "kae.kunpeng.com/"

prefixed : Text → Text
prefixed name = if has_infix (codes "/") name then name else kae_resource_prefix ++ name

unfoldable pub normalize_resource_name : Text → Text
unfolding prefixed
normalize_resource_name name = prefixed (trim_space name)

unfoldable pub namespace_in_list : Text → List Text → Bool
namespace_in_list namespace [] = false
namespace_in_list namespace (configured ∷ namespaces) =
    text_eq namespace (trim_space configured) || namespace_in_list namespace namespaces

unfoldable pub should_inject_namespace : Text → List Text → List Text → Bool
unfolding namespace_in_list
should_inject_namespace namespace included excluded =
    if is_empty included
    then not (namespace_in_list namespace excluded)
    else namespace_in_list namespace included

-- The names of `container.Env`
unfoldable pub names : List EnvVar → List Text
names [] = []
names (e ∷ env) = e.name ∷ names env

-- The variables that the loop of appendMissingEnvVars appends, where the names in `existing` are
-- those that the map has
unfoldable pub missing_env_vars : List Text → List EnvVar → List EnvVar
unfolding has_text
missing_env_vars existing [] = []
missing_env_vars existing (e ∷ env) =
    let found = has_text existing e.name in
    let rest = missing_env_vars (if found then existing else e.name ∷ existing) env in
    if found then rest else e ∷ rest

-- A write to the element at an index
unfoldable pub modify_at {ℓ} : {A : Type ℓ} → (A → A) → List A → ℕ → List A
modify_at change [] i = []
modify_at change (x ∷ xs) zero = change x ∷ xs
modify_at change (x ∷ xs) (suc i) = x ∷ modify_at change xs i

module _ {Q : Type 0} where
  unfoldable pub resource_list_has_kae : List (Text × Q) → Bool
  unfolding has_prefix
  resource_list_has_kae [] = false
  resource_list_has_kae ((name, quantity) ∷ resources) =
      has_prefix name kae_resource_prefix || resource_list_has_kae resources

  unfoldable pub list_of : Option (List (Text × Q)) → List (Text × Q)
  list_of none = []
  list_of (some resources) = resources

  unfoldable pub any_has_kae : List (KaeContainer Q) → Bool
  unfolding resource_list_has_kae list_of
  any_has_kae [] = false
  any_has_kae (c ∷ containers) =
      resource_list_has_kae (list_of c.requests)
      || resource_list_has_kae (list_of c.limits)
      || any_has_kae containers

  unfoldable pub has_kae_resource : KaePod Q → Bool
  unfolding any_has_kae
  has_kae_resource pod = any_has_kae pod.containers || any_has_kae pod.init_containers

  unfoldable pub append_missing_env_vars : List EnvVar → KaeContainer Q → KaeContainer Q
  unfolding missing_env_vars names
  append_missing_env_vars env c = record c { env = c.env ++ missing_env_vars (names c.env) env }

  -- What appendMissingEnvVars returns for the container that is found
  unfoldable pub env_changed : List EnvVar → Option (KaeContainer Q) → Bool
  unfolding missing_env_vars names
  env_changed env none = false
  env_changed env (some c) = not (is_empty (missing_env_vars (names c.env) env))

  unfoldable pub put_resource : Text → Q → KaeContainer Q → KaeContainer Q
  unfolding put list_of
  put_resource name quantity c = record c {
    requests = some (put (list_of c.requests) name quantity);
    limits = some (put (list_of c.limits) name quantity);
  }

  module _ (new_quantity : ℕ → Q) (is_qualified_name : Text → Bool) where
    unfoldable pub inject : InjectionConfig → KaePod Q → KaePod Q
    unfolding modify_at put_resource normalize_resource_name
    inject config pod = record pod {
      containers =
          modify_at
            (put_resource (normalize_resource_name config.default_resource)
              (new_quantity config.default_count))
            pod.containers config.target_container;
    }

    -- The last `if`
    unfoldable pub inject_env : InjectionConfig → KaePod Q → Bool → Mutation Q
    unfolding append_missing_env_vars env_changed modify_at
    inject_env config pod changed =
        mutated
          (record pod {
            containers =
                modify_at (append_missing_env_vars config.env_vars) pod.containers
                  config.target_container;
          })
          (env_changed config.env_vars (get_elem? pod.containers config.target_container)
            || changed)

    -- What follows the guards
    unfoldable pub inject_into : InjectionConfig → KaePod Q → Mutation Q
    unfolding inject inject_env has_kae_resource
    inject_into config pod =
        if has_kae_resource pod
        then inject_env config pod false
        else inject_env config (inject config pod) true

    -- The guards from the containers on
    guarded : InjectionConfig → KaePod Q → Mutation Q
    unfolding inject_into normalize_resource_name
    guarded config pod =
        if is_empty pod.containers
        then refused no_containers
        else if is_neg config.target_container
            || leb (length pod.containers) config.target_container
        then refused target_out_of_range
        else if not (is_pos config.default_count)
        then refused count_not_positive
        else if is_empty (trim_space config.default_resource)
        then refused empty_resource
        else if not (is_qualified_name (normalize_resource_name config.default_resource))
        then refused invalid_resource
        else inject_into config pod

    unfoldable pub mutate_pod_for_kae_injection :
        Option (KaePod Q) → Text → InjectionConfig → Mutation Q
    unfolding guarded should_inject_namespace
    mutate_pod_for_kae_injection none namespace config = refused nil_pod
    mutate_pod_for_kae_injection (some pod) namespace config =
        if not config.enabled
          || not (
              should_inject_namespace namespace config.included_namespaces
                config.excluded_namespaces)
        then mutated pod false
        else guarded config pod

    -- Default of PodCustomDefaulter: the namespace of the request counts where the pod names none.
    unfoldable pub default_pod : Text → InjectionConfig → KaePod Q → Mutation Q
    unfolding mutate_pod_for_kae_injection
    default_pod request_namespace config pod =
        mutate_pod_for_kae_injection (some pod)
          (if is_empty pod.namespace then request_namespace else pod.namespace) config

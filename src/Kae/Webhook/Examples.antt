-- ===== src/Kae/Webhook/Examples.antt =====
-- The webhook on a pod of one container.
use cloud_native.Prelude.{ℕ, true, false, none, some, List, [], ◌∷◌, ◌≡◌, refl}
use cloud_native.TopologyAware.Request.Devices.{Text, codes, trim_space, has_infix}
use cloud_native.TopologyAware.Filter.{text_eq}
use cloud_native.PcoreBinding.Topology.{has_text}
use cloud_native.Cache.Table.{put, erase}
use cloud_native.Cache.Pods.{has_prefix}
use cloud_native.Kae.Webhook.{
  EnvVar, KaePod, InjectionConfig, Mutation, mutated, normalize_resource_name, prefixed, guarded,
  inject_into, inject, inject_env, has_kae_resource, any_has_kae, resource_list_has_kae, list_of,
  put_resource, modify_at, append_missing_env_vars, env_changed, missing_env_vars, names,
  should_inject_namespace, namespace_in_list, mutate_pod_for_kae_injection,
}
use cloud_native.Kae.Webhook.Idempotent.{mutate_pod_for_kae_injection_twice}

abbrev engines : EnvVar
engines = record { name = codes "OPENSSL_ENGINES"; value = codes "/usr/local/lib/engines-1.1" }

abbrev config : InjectionConfig
config = record {
  enabled = true;
  default_resource = codes "hisi_hpre";
  default_count = 1;
  target_container = 0;
  included_namespaces = [];
  excluded_namespaces = codes "kube-system" ∷ [];
  env_vars = engines ∷ [];
}

abbrev bare : KaePod ℕ
bare = record {
  namespace = codes "default";
  containers = record { requests = none; limits = none; env = [] } ∷ [];
  init_containers = [];
}

abbrev hpre : List (Text × ℕ)
hpre = (codes "kae.kunpeng.com/hisi_hpre", 1) ∷ []

abbrev equipped : KaePod ℕ
equipped = record bare {
  containers = record { requests = some hpre; limits = some hpre; env = engines ∷ [] } ∷ [];
}

abbrev mutate : KaePod ℕ → Mutation ℕ
mutate pod =
    mutate_pod_for_kae_injection (λ n. n) (λ name. true) (some pod) (codes "default") config

mutate-bare : mutate bare ≡ mutated equipped true
unfolding mutate_pod_for_kae_injection should_inject_namespace namespace_in_list guarded inject_into
    inject inject_env has_kae_resource any_has_kae resource_list_has_kae list_of put_resource
    modify_at append_missing_env_vars env_changed missing_env_vars names normalize_resource_name
    prefixed put erase text_eq has_text has_prefix trim_space has_infix
mutate-bare = refl

hpre_prefixed :
    has_prefix (normalize_resource_name (codes "hisi_hpre")) (codes "kae.kunpeng.com/") ≡ true
unfolding normalize_resource_name prefixed has_prefix trim_space has_infix
hpre_prefixed = refl

mutate_pod_for_kae_injection_twice_example : mutate equipped ≡ mutated equipped false
mutate_pod_for_kae_injection_twice_example =
    mutate_pod_for_kae_injection_twice (λ n. n) (λ name. true) config (codes "default") bare
      equipped true hpre_prefixed mutate-bare

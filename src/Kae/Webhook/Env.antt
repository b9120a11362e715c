-- ===== src/Kae/Webhook/Env.antt =====
-- appendMissingEnvVars: after it, no configured variable is missing.
use cloud_native.Prelude.{
  true, ◌||◌, List, [], ◌∷◌, ◌++◌, ◌≡◌, refl, subst, arith, Bool-cases, inl, inr,
}
use cloud_native.TopologyAware.Request.Devices.{Text}
use cloud_native.TopologyAware.Filter.{text_eq}
use cloud_native.PcoreBinding.Topology.{has_text}
use cloud_native.PcoreBinding.Topology.Distinct.{text_eq→eq, text_eq_refl}
use cloud_native.Kae.Webhook.{EnvVar, names, missing_env_vars}

-- All texts of one list are in the other.
abbrev IsWithin : List Text → List Text → Type 0
IsWithin xs ys = (t : Text) → has_text xs t ≡ true → has_text ys t ≡ true

IsWithin-cons :
    (x : Text) (xs ys : List Text) → has_text ys x ≡ true → IsWithin xs ys → IsWithin (x ∷ xs) ys
unfolding has_text
IsWithin-cons x xs ys h within t e = elim (Bool-cases (text_eq x t)) [
  | inl same ↦ subst (λ t. has_text ys t ≡ true) (text_eq→eq x t same) h
  | inr other ↦ within t (ground arith)
]

missing_env_vars-none :
    (existing ys : List Text) (env : List EnvVar)
    → IsWithin existing ys
    → IsWithin (names (missing_env_vars existing env)) ys
    → missing_env_vars ys env ≡ []
unfolding missing_env_vars names has_text
missing_env_vars-none existing ys [] within added = refl
missing_env_vars-none existing ys (e ∷ env) within added =
    elim (Bool-cases (has_text existing e.name)) [
      | inl found ↦
          let skipped : missing_env_vars existing (e ∷ env) ≡ missing_env_vars existing env =
            rw found refl in
          rw (within e.name found) (
            missing_env_vars-none existing ys env within
              (subst (λ l. IsWithin (names l) ys) skipped added))
      | inr new ↦
          let appended : missing_env_vars existing (e ∷ env)
              ≡ e ∷ missing_env_vars (e.name ∷ existing) env =
            rw new refl in
          let known = subst (λ l. IsWithin (names l) ys) appended added in
          let first : has_text ys e.name ≡ true = known e.name (rw (text_eq_refl e.name) refl) in
          rw first (
            missing_env_vars-none (e.name ∷ existing) ys env
              (IsWithin-cons e.name existing ys first within) (λ t h. known t (ground arith)))
    ]

has_text-append :
    (xs ys : List EnvVar) (t : Text)
    → has_text (names (xs ++ ys)) t ≡ (has_text (names xs) t || has_text (names ys) t)
unfolding names has_text
has_text-append [] ys t = refl
has_text-append (x ∷ xs) ys t = ground (arith, has_text-append xs ys t)

pub missing_env_vars-appended :
    (old env : List EnvVar)
    → missing_env_vars (names (old ++ missing_env_vars (names old) env)) env ≡ []
missing_env_vars-appended old env =
    let added = missing_env_vars (names old) env in
    missing_env_vars-none (names old) (names (old ++ added)) env
      (λ t h. ground (arith, has_text-append old added t))
      (λ t h. ground (arith, has_text-append old added t))

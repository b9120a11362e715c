-- ===== src/Kae/Webhook/Options.antt =====
-- The texts of the webhook's options: ParseEnvVars of pod_mutator.go, splitCSV and appendUnique of
-- options.go.
use cloud_native.Prelude.{
  true, ◌||◌, Option, none, some, List, [], ◌∷◌, ◌++◌, ◌≡◌, refl, ◌∙◌, subst, arith, Bool-cases,
  inl, inr, if◌then◌else◌,
}
use cloud_native.TopologyAware.Request.Devices.{Text, is_empty, trim_space, split}
use cloud_native.TopologyAware.Filter.{text_eq}
use cloud_native.PcoreBinding.Topology.{has_text}
use cloud_native.PcoreBinding.Topology.Distinct.{text_eq→eq}
use cloud_native.Server.DockerUtils.{cut}
use cloud_native.Kae.Webhook.{EnvVar}

-- An entry without `=`, or without a name, is an error, and so `none`.
entry_var : Option (Text × Text) → Option EnvVar
entry_var none = none
entry_var (some (name, value)) =
    if is_empty (trim_space name)
    then none
    else some (record { name = trim_space name; value = value })

cons_var : Option EnvVar → Option (List EnvVar) → Option (List EnvVar)
cons_var none rest = none
cons_var (some e) none = none
cons_var (some e) (some env) = some (e ∷ env)

parse_entries : List Text → Option (List EnvVar)
unfolding entry_var cons_var cut
parse_entries [] = some []
parse_entries (entry ∷ entries) =
    cons_var (entry_var (cut 61 (trim_space entry))) (parse_entries entries)

unfoldable pub parse_env_vars : Text → Option (List EnvVar)
unfolding parse_entries
parse_env_vars value =
    if is_empty (trim_space value) then some [] else parse_entries (split 44 value)

-- The additions that appendUnique appends, where `existing` has the keys of the map
unique_additions : List Text → List Text → List Text
unique_additions existing [] = []
unique_additions existing (addition ∷ additions) =
    let found = has_text existing addition in
    let rest = unique_additions (if found then existing else addition ∷ existing) additions in
    if found then rest else addition ∷ rest

unfoldable pub append_unique : List Text → List Text → List Text
unfolding unique_additions
append_unique values additions = values ++ unique_additions values additions

-- The loop of splitCSV
add_values : List Text → List Text → List Text
unfolding append_unique
add_values result [] = result
add_values result (value ∷ values) =
    let trimmed = trim_space value in
    add_values (if is_empty trimmed then result else append_unique result (trimmed ∷ [])) values

unfoldable pub split_csv : Text → List Text
unfolding add_values
split_csv value = add_values [] (split 44 value)

has_text-append :
    (xs ys : List Text) (t : Text) → has_text (xs ++ ys) t ≡ (has_text xs t || has_text ys t)
unfolding has_text
has_text-append [] ys t = refl
has_text-append (x ∷ xs) ys t = ground (arith, has_text-append xs ys t)

has_text-unique_additions :
    (existing additions : List Text) (t : Text)
    → (has_text existing t || has_text (unique_additions existing additions) t)
      ≡ (has_text existing t || has_text additions t)
unfolding unique_additions has_text
has_text-unique_additions existing [] t = refl
has_text-unique_additions existing (a ∷ additions) t = elim (Bool-cases (has_text existing a)) [
  | inl found ↦ elim (Bool-cases (text_eq a t)) [
    | inl same ↦
        let known : has_text existing t ≡ true =
          subst (λ t. has_text existing t ≡ true) (text_eq→eq a t same) found in
        rw known refl
    | inr other ↦ rw (found, other) (has_text-unique_additions existing additions t)
  ]
  | inr new ↦ rw new (ground (arith, has_text-unique_additions (a ∷ existing) additions t))
]

-- appendUnique has the values and the additions, and nothing else.
pub has_text-append_unique :
    (values additions : List Text) (t : Text)
    → has_text (append_unique values additions) t ≡ (has_text values t || has_text additions t)
unfolding append_unique
has_text-append_unique values additions t =
    has_text-append values (unique_additions values additions) t
    ∙ has_text-unique_additions values additions t

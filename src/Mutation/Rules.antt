-- ===== src/Mutation/Rules.antt =====
-- The substitution rules of controllers/mutation_reconcile_looper.go: performLocalization,
-- createSubstitutionRulesForLocalization, createSubstitutionRulesForConfigurationValues and
-- generateSubstitutions.
use Prim.Native.String.{◌++◌}
use ocm_controller.Prelude.{
  ℕ, suc, String, Option, none, some, List, [], ◌∷◌, if◌then◌else◌, str_eq, lookup, insert,
}
use ocm_controller.Prelude.Text.{decimal}
use ocm_controller.Prelude.Outcome.{Result, ok, panic, context}
use ocm_controller.Ocm.Credentials.{◌>>=◌}
use ocm_controller.Status.Runtime.{Runtime}
use ocm_controller.Component.Names.{Identity}
use ocm_controller.ComponentVersion.Types.{ComponentVersion}
use ocm_controller.Mutation.Services.{
  MutationServices, ConfigRule, LocalizationRule, Mapping, ImageName, put_text, put_json,
}
use ocm_controller.Mutation.Access.{find_reference}

-- `for k, v := range valuesMap { if _, ok := templ[k]; ok { templ[k] = v } }`
abbrev pub override_one :
    String → String → Option String → List (String × String) → List (String × String)
override_one k v none templ = templ
override_one k v (some old) templ = insert k v templ

unfoldable pub override : List (String × String) → List (String × String) → List (String × String)
override [] templ = templ
override ((k, v) ∷ values) templ = override values (override_one k v (lookup k templ) templ)

-- the values that a map ranges over: none, if it is nil
abbrev pub fields_of : Option (List (String × String)) → List (String × String)
fields_of none = []
fields_of (some fields) = fields

module _ (r : Runtime) (s : MutationServices r) where
  open s use {
    Cluster, Octx, Access, Rules, Bytes, create_authenticated_ocm_context,
    get_component_version_access, config_data, object_fields, rules_json, marshal_fields, no_rules,
    add_rule, validate_by_scheme, cascade_with, resolve_resource, access_of, access_spec_for_spec,
    parse_reference, compile_mapping,
  }

  -- the four tests on what a rule asks for
  abbrev pub add_if : String → String → String → String → String → Rules → Result Rules
  add_if msg name file path text rules =
      if str_eq path ""
      then ok rules
      else context msg (add_rule rules name file path (put_text text))

  unfoldable pub add_parts : LocalizationRule → ImageName → Rules → Result Rules
  add_parts l image rules = do
    rules₁ ← add_if "failed to add registry" "registry" l.file l.registry image.registry rules
    rules₂ ←
        add_if "failed to add repository" "repository" l.file l.repository image.repository rules₁
    rules₃ ← add_if "failed to add image ref name" "image" l.file l.image image.full_name rules₂
    add_if "failed to add identifier" "tag" l.file l.tag image.identifier rules₃

  -- `fuel` is for the loop over access specifications
  unfoldable pub perform_localization :
      ℕ → Octx → LocalizationRule → List Identity → Access → Rules → Result Rules
  perform_localization fuel octx l ref_path cv rules = do
    resource ←
        context "failed to fetch resource from component version"
          (resolve_resource cv l.resource ref_path)
    spec ← access_of resource
    ref ←
        context "failed to parse access reference"
          (find_reference (access_spec_for_spec octx) fuel spec)
    image ← context "failed to parse access reference" (parse_reference ref)
    add_parts l image rules

  abbrev pub add_mapping : Cluster → ComponentVersion → String → Mapping → Rules → Result Rules
  add_mapping k cv file mapping rules = do
    res ← context "failed to compile mapping" (compile_mapping k cv mapping.transform)
    context "failed to add identifier" (add_rule rules "custom" file mapping.path (put_json res))

  abbrev pub localize_one :
      ℕ
      → Cluster
      → ComponentVersion
      → Octx
      → List Identity
      → Access
      → LocalizationRule
      → Rules
      → Result Rules
  localize_one fuel k cv octx ref_path access l rules = elim l.mapping [
    | some mapping ↦ add_mapping k cv l.file mapping rules
    | none ↦
        context "failed to perform localization"
          (perform_localization fuel octx l ref_path access rules)
  ]

  -- the loop over the rules of the configuration data
  unfoldable pub localize_all :
      ℕ
      → Cluster
      → ComponentVersion
      → Octx
      → List Identity
      → Access
      → List LocalizationRule
      → Rules
      → Result Rules
  localize_all fuel k cv octx ref_path access [] rules = ok rules
  localize_all fuel k cv octx ref_path access (l ∷ ls) rules = do
    rules' ← localize_one fuel k cv octx ref_path access l rules
    localize_all fuel k cv octx ref_path access ls rules'

  unfoldable pub create_substitution_rules_for_localization :
      ℕ → Cluster → ComponentVersion → Bytes → List Identity → Result Rules
  create_substitution_rules_for_localization fuel k cv data' ref_path = do
    config ← context "failed to unmarshal content" (config_data data')
    octx ← context "failed to create authenticated client" (create_authenticated_ocm_context k cv)
    access ←
        context "failed to get component version"
          (get_component_version_access k octx cv cv.spec.component cv.reconciled_version)
    localize_all fuel k cv octx ref_path access config.localization no_rules

  -- `templ["adjustments"] = list`, which panics where the map is nil
  abbrev pub with_adjustments :
      Rules
      → List (String × String)
      → Option (List (String × String))
      → Result (List (String × String))
  with_adjustments subst values none = panic
  with_adjustments subst values (some templ) =
      ok (insert "adjustments" (rules_json subst) (override values templ))

  -- The texts of defaults and schema are what json.Marshal gives, which is never empty.
  unfoldable pub generate_substitutions : Rules → String → String → String → Result Rules
  generate_substitutions subst defaults values schema = do
    templ ← context "cannot unmarshal template" (object_fields defaults)
    values_map ← context "cannot unmarshal values" (object_fields values)
    filled ← with_adjustments subst (fields_of values_map) templ
    template ← context "cannot marshal template" (marshal_fields filled)
    valid ← context "validation failed" (validate_by_scheme values schema)
    cascade_with template

  unfoldable pub configure_all : ℕ → List ConfigRule → Rules → Result Rules
  configure_all i [] rules = ok rules
  configure_all i (l ∷ ls) rules = do
    rules' ←
        context "failed to add rule"
          (add_rule rules ("subst-" ++ decimal i) l.file l.path (put_json l.value))
    configure_all (suc i) ls rules'

  unfoldable pub create_substitution_rules_for_configuration_values : Bytes → String → Result Rules
  create_substitution_rules_for_configuration_values data' values = do
    config ← context "failed to unmarshal content" (config_data data')
    rules ← configure_all 0 config.rules no_rules
    context "configurator error" (generate_substitutions rules config.defaults values config.schema)

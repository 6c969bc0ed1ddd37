-- ===== src/Examples/Mappings.antt =====
-- References that are filled in, with values that are lists of texts: `app` has one reference.
use ocm_controller.Prelude.{
  ◌≡◌, ◌↔◌, refl, String, none, some, List, [], ◌∷◌, ◌++◌, str_eq, Bool, false, if◌then◌else◌,
}
use ocm_controller.Prelude.Text.{replace_slashes, decimal}
use ocm_controller.Prelude.Outcome.{ok}
use ocm_controller.Component.References.{get_component_descriptor, get_component_descriptor_object}
use ocm_controller.Component.Names.{construct_unique_name}
use ocm_controller.Mutation.Mapping.{
  CueServices, with_cue, with_descriptor, populate_each, populate_references, compile_mapping,
}
use ocm_controller.Mutation.Services.{MutationServices}
use ocm_controller.Mutation.Populated.{IsPopulated, Settles, populate_references-IsPopulated}
use ocm_controller.Examples.Conditions.{conditions}
use ocm_controller.Examples.Repository.{app}
use ocm_controller.Examples.Mutations.{services}

abbrev starts_with_app : List String → Bool
starts_with_app [] = false
starts_with_app (t ∷ ts) = str_eq t "app"

abbrev cue : CueServices (List String)
cue = record {
  Spec = String;
  Value = List String;
  Struct = List String;
  CuePath = List String;
  Selector = String;
  Bytes = String;
  get_descriptor = λ k key. ok (if str_eq key.name "x-x-7" then "leaf" else "app");
  hash = λ scheme. ok 7;
  parse_path = λ t. t ∷ [];
  make_path = λ path. path;
  str = λ t. t;
  compile_string = λ t scope. elim scope [ none ↦ [] | some v ↦ t ∷ v ];
  encode = λ spec. spec ∷ [];
  fill_path = λ v path w. v ++ w;
  fill_spec = λ v path spec. spec ∷ v;
  lookup_path = λ v path. v;
  exists = starts_with_app;
  list = λ v. ok (("0", "ref" ∷ []) ∷ []);
  struct = λ v. ok v;
  field_by_name = λ fields name optional. ok fields;
  string = λ v. ok "x";
  bytes = λ v. ok "out";
  raw_message = λ b. ok b;
}

abbrev populated : List String
populated = "app" ∷ "leaf" ∷ "ref" ∷ []

app_is_populated : populate_references cue 2 [] "ocm-system" ("app" ∷ []) ≡ ok populated
unfolding populate_references populate_each with_descriptor construct_unique_name
    get_component_descriptor get_component_descriptor_object replace_slashes decimal
app_is_populated = refl

populate_references-IsPopulated_example :
    Settles cue [] "ocm-system" ("app" ∷ []) populated
    ↔ IsPopulated cue [] "ocm-system" ("app" ∷ []) populated
populate_references-IsPopulated_example =
    populate_references-IsPopulated cue [] "ocm-system" ("app" ∷ []) populated

abbrev mapped : MutationServices conditions
mapped = with_cue conditions services cue 2

mapping_is_compiled : mapped.compile_mapping [] app "out: component" ≡ ok "out"
unfolding compile_mapping populate_references populate_each with_descriptor construct_unique_name
    get_component_descriptor get_component_descriptor_object replace_slashes decimal
mapping_is_compiled = refl

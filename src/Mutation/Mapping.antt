-- ===== src/Mutation/Mapping.antt =====
-- compileMapping, populateReferences and getStructFieldValue of
-- controllers/mutation_reconcile_looper.go, over the CUE library.
use ocm_controller.Prelude.{
  ℕ, zero, suc, String, Bool, false, Option, none, some, List, [], ◌∷◌, if◌then◌else◌,
}
use ocm_controller.Prelude.Outcome.{Result, ok, err, panic, out_of_fuel, plain}
use ocm_controller.Ocm.Credentials.{◌>>=◌}
use ocm_controller.Component.Names.{NamespacedName, NamingScheme, construct_unique_name}
use ocm_controller.Component.References.{reference, no_more, get_component_descriptor}
use ocm_controller.ComponentVersion.Types.{ComponentVersion}
use ocm_controller.Status.Runtime.{Runtime}
use ocm_controller.Mutation.Services.{MutationServices}

-- What the code calls, in a cluster. `Spec` is the spec of a ComponentDescriptor.
pub record CueServices (Cluster : Type 0) : Type 1 where
  pub Spec : Type 0
  -- cue.Value, Struct, Path and Selector
  pub Value : Type 0
  pub Struct : Type 0
  pub CuePath : Type 0
  pub Selector : Type 0
  -- the content of a text in CUE, and a raw JSON text
  pub Bytes : Type 0
  -- client.Get of a ComponentDescriptor, its spec; and hashstructure
  pub get_descriptor : Cluster → NamespacedName → Result Spec
  pub hash : NamingScheme → Result ℕ
  -- cue.ParsePath, MakePath and Str
  pub parse_path : String → CuePath
  pub make_path : List Selector → CuePath
  pub str : String → Selector
  -- CompileString, with a scope if there is one, and Encode
  pub compile_string : String → Option Value → Value
  pub encode : Spec → Value
  -- FillPath with a value, and with a spec
  pub fill_path : Value → CuePath → Value → Value
  pub fill_spec : Value → CuePath → Spec → Value
  -- LookupPath, Exists, List with what its iterator yields, and Struct
  pub lookup_path : Value → CuePath → Value
  pub exists : Value → Bool
  pub list : Value → Result (List (Selector × Value))
  pub struct : Value → Result Struct
  -- FieldByName with `false` for a field that is not optional, and its value; String and Bytes
  pub field_by_name : Struct → String → Bool → Result Value
  pub string : Value → Result String
  pub bytes : Value → Result Bytes
  -- json.Unmarshal into a raw message
  pub raw_message : Bytes → Result String

-- no component descriptor was found: `cd.Spec` of nil
abbrev pub found_spec : {A : Type 0} → Option A → Result A
found_spec none = panic
found_spec (some spec) = ok spec

abbrev pub found_or_error : {A : Type 0} → Option A → Result A
found_or_error none = err (plain "component descriptor not found with ref")
found_or_error (some spec) = ok spec

module _ {Cluster : Type 0} (s : CueServices Cluster) where
  open s use {
    Spec, Value, Struct, CuePath, Selector, Bytes, get_descriptor, hash, parse_path, make_path, str,
    compile_string, encode, fill_path, fill_spec, lookup_path, exists, list, struct, field_by_name,
    string, bytes, raw_message,
  }

  abbrev pub get_struct_field_value : Struct → String → Result String
  get_struct_field_value v field = do f ← field_by_name v field false; string f

  abbrev pub references_path : CuePath
  references_path = parse_path "component.references"

  -- the body of the loop, up to the recursive call: a reference with its descriptor filled in
  unfoldable pub with_descriptor : Cluster → String → Value → Result Value
  with_descriptor k namespace val = do
    ref_data ← struct val
    ref_name ← get_struct_field_value ref_data "componentName"
    ref_version ← get_struct_field_value ref_data "version"
    cd_ref ← construct_unique_name hash ref_name ref_version []
    found ← get_component_descriptor (get_descriptor k) [] (
        reference ref_name ref_version no_more [] (record { namespace = namespace; name = cd_ref }))
    spec ← found_spec found
    ok (fill_spec val (parse_path "component") spec)

  -- where the loop puts the reference of an index
  abbrev pub place_of : Selector → CuePath
  place_of index = make_path (str "component" ∷ str "references" ∷ index ∷ [])

  -- the loop over the references, where `nested` is the recursive call
  unfoldable pub populate_each :
      (Value → Result Value) → Cluster → String → List (Selector × Value) → Value → Result Value
  populate_each nested k namespace [] root = ok root
  populate_each nested k namespace ((index, val) ∷ items) root = do
    filled ← with_descriptor k namespace val
    populated ← nested filled
    populate_each nested k namespace items (fill_path root (place_of index) populated)

  -- with as many calls below each other as the fuel allows
  unfoldable pub populate_references : ℕ → Cluster → String → Value → Result Value
  populate_references zero k namespace src = out_of_fuel
  populate_references (suc fuel) k namespace src =
      let nested = populate_references fuel k namespace in
      let refs = lookup_path src references_path in
      if exists refs
      then (list refs >>= λ items. populate_each nested k namespace items src)
      else ok src

  unfoldable pub compile_mapping : ℕ → Cluster → ComponentVersion → String → Result String
  compile_mapping fuel k cv mapping = do
    found ← get_component_descriptor (get_descriptor k) [] cv.component_descriptor
    spec ← found_or_error found
    root ←
        populate_references fuel k cv.key.namespace
          (fill_path (compile_string "component:{}" none) (parse_path "component") (encode spec))
    res ← bytes (lookup_path (compile_string mapping (some root)) (parse_path "out"))
    raw_message res

-- the looper with its own compileMapping
abbrev pub with_cue :
    (r : Runtime) (s : MutationServices r) → CueServices s.Cluster → ℕ → MutationServices r
with_cue r s cue fuel = record s { compile_mapping = compile_mapping cue fuel }

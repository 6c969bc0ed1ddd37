-- ===== src/Examples/Pipelines.antt =====
-- A pipeline whose component version is not there, and values with a function in them.
use ocm_controller.Prelude.{
  ◌≡◌, ◌≢◌, refl, inl, String, true, false, none, some, List, [], ◌∷◌, eq_iff, arith,
}
use ocm_controller.Prelude.Outcome.{ok, err, not_found, is_not_found}
use ocm_controller.Status.Runtime.{ready, reconciling, holds}
use ocm_controller.Pipeline.Values.{
  Value, text, array, Fields, field, no_fields, item, no_items, process_value_functions,
  inject_slice_value, inject_value, parameters_inject_func, has_prefix, split_dot,
}
use ocm_controller.Pipeline.Plain.{plain_fields, plain_value, process_value_functions-idempotent}
use ocm_controller.Pipeline.Types.{PipelineServices}
use ocm_controller.Pipeline.Controller.{Here}
use ocm_controller.Pipeline.Finish.{reconcile_object}
use ocm_controller.Pipeline.Unready.{reconcile_object-unready}
use ocm_controller.Examples.Conditions.{conditions, conditions-laws, unknown}

abbrev parameters : List (String × Value)
parameters = ("replicas", text "3") ∷ []

abbrev values : Fields
values = field "spec" (array (item (text "$parameters.replicas") no_items)) no_fields

abbrev processed : Fields
processed = field "spec" (array (item (text "3") no_items)) no_fields

values_processed : process_value_functions parameters values ≡ ok processed
unfolding process_value_functions inject_slice_value inject_value parameters_inject_func has_prefix
    split_dot
values_processed = refl

plain_replicas : plain_value (text "3") ≡ true
unfolding plain_value has_prefix
plain_replicas = refl

process_value_functions-idempotent_example :
    (plain_fields processed ≡ true) × (process_value_functions parameters processed ≡ ok processed)
process_value_functions-idempotent_example =
    process_value_functions-idempotent parameters (plain_replicas, tt) values processed
      values_processed

abbrev pub services : PipelineServices conditions
services = record {
  Cluster = List String;
  Octx = Unit {0};
  Access = String;
  Res = String;
  get_object = λ k key. err not_found;
  patch = λ w. (none, w.cluster);
  random_string = λ k. ok "abcdefg";
  get_component_version_object = λ k key. err not_found;
  create_authenticated_ocm_context = λ k cv. ok tt;
  get_component_version = λ k octx cv n v. ok n;
  get_resource = λ a n. ok n;
  make_temp = λ k. (ok "dir", k);
  new_projection = λ d k. (ok tt, k);
  download = λ res d k. (ok tt, d ∷ k);
  parse_parameters = λ raw. ok parameters;
  parse_values = λ raw. ok values;
  print_values = λ fs. ok "values";
  init_runtime = λ a d k. (ok tt, k);
  fetch_wasm_blob = λ k step. ok "blob";
  call = λ timeout name blob vs k. (ok tt, name ∷ k);
  write_snapshot = λ obj d id k. (ok "sha256:3", k);
}

abbrev pipeline : Here conditions services
pipeline = record {
  obj = record {
    key = record { namespace = "ocm-system"; name = "app" };
    interval = 600;
    suspend = false;
    source_ref = record { namespace = "ocm-system"; name = "app"; resource_ref = none };
    parameters = none;
    steps = some [];
    snapshot_name = "app-abcdefg";
    latest_snapshot_digest = "";
  };
  generation = 1;
  observed_generation = none;
  conditions = unknown;
  events = [];
  cluster = [];
}

not_found_is : is_not_found not_found ≡ true
unfolding is_not_found
not_found_is = refl

abbrev name : String
name = "app-abcdefg"

pipeline_named : name ≢ ""
pipeline_named = ground (arith, eq_iff name "")

reconcile_object-unready_example :
    (holds ((reconcile_object conditions services pipeline).1.conditions ready) ≡ true)
    × ((reconcile_object conditions services pipeline).1.conditions reconciling ≡ none)
    × ((reconcile_object conditions services pipeline).1.observed_generation ≡ some 1)
    × ((reconcile_object conditions services pipeline).1.obj ≡ pipeline.obj)
reconcile_object-unready_example =
    reconcile_object-unready conditions conditions-laws services pipeline refl pipeline_named refl
      (inl (not_found, refl, not_found_is))

-- ===== src/Examples/Components.antt =====
-- The ComponentVersion controller at the small repository, and the search in a tree of references.
use ocm_controller.Prelude.{
  true, ℕ, ◌≡◌, ◌≢◌, ◌⊎◌, refl, false, none, some, List, [], ◌∷◌, map, arith, if◌then◌else◌, str_eq,
}
use ocm_controller.Prelude.Outcome.{ok, panic, out_of_fuel}
use ocm_controller.Prelude.Text.{replace_slashes, decimal}
use ocm_controller.Status.World.{return, requeue_after}
use ocm_controller.Status.Mark.{
  update_status, mark_retrying, observe_generation, mark_not_ready, mark_ready, new_event, progress,
}
use ocm_controller.Status.Finish.{fail, fail_with, stall, succeed}
use ocm_controller.Component.Names.{NamespacedName, Identity, construct_unique_name}
use ocm_controller.Component.References.{
  Reference, References, reference, no_more, also, get_component_descriptor,
}
use ocm_controller.Component.References.Search.{
  fetch_found, first, selects, preorder, get_component_descriptor-first,
}
use ocm_controller.ComponentVersion.Types.{ComponentVersion}
use ocm_controller.ComponentVersion.Services.{Services, ComponentReference}
use ocm_controller.ComponentVersion.Version.{check_version}
use ocm_controller.ComponentVersion.Expand.{
  parse_references, construct_for_reference, create_component_descriptor,
}
use ocm_controller.ComponentVersion.Nested.{listed, asked, parse_references-asked}
use ocm_controller.ComponentVersion.Ends.{CallsEnd, IsAcyclic, parse_references_ends}
use ocm_controller.ComponentVersion.Controller.{
  load, reconcile_request, Here, update_component, reconcile_object, after_check, checked_version,
  reconcile, expand_references,
}
use ocm_controller.ComponentVersion.Settled.{request_component-Concluded}
use ocm_controller.Status.Deferred.{Ends, Concluded}
use ocm_controller.ComponentVersion.Verified.{IsChecked, reconcile_object-IsChecked}
use ocm_controller.ComponentVersion.Client.{
  IsTrusted, reconcile_object-IsTrusted, client-nested_panics,
}
use ocm_controller.Ocm.Credentials.{create_authenticated_ocm_context, configure_access_credentials}
use ocm_controller.Ocm.Versions.{
  get_latest_valid_component_version, list_component_versions, first_valid, sort_versions,
  insert_version, get_component_version,
}
use ocm_controller.Ocm.Verify.{
  verify_component, verify_signatures, verify_signature, get_public_key,
}
use ocm_controller.Examples.Conditions.{conditions, conditions-laws, unknown}
use ocm_controller.Examples.Repository.{
  library, rest, services, app, app_key, ref_to, greater-IsOrder,
}

-- "app" without the expansion of its references
abbrev flat_app : ComponentVersion
flat_app = record app { spec = record (app.spec) { expand = false } }

abbrev at : ComponentVersion → Here conditions services 9
at cv = record {
  obj = cv;
  generation = 1;
  observed_generation = none;
  conditions = unknown;
  events = [];
  cluster = [];
}

reconcile_object-IsTrusted_example :
    ((reconcile_object conditions services 9 (at flat_app)).1.obj ≡ flat_app)
    ⊎ IsTrusted conditions library rest [] flat_app
        (reconcile_object conditions services 9 (at flat_app)).1.obj.reconciled_version
reconcile_object-IsTrusted_example =
    reconcile_object-IsTrusted conditions library rest greater-IsOrder 9 (at flat_app)

reconcile_object-IsChecked_example :
    ((reconcile_object conditions services 9 (at flat_app)).1.obj ≡ flat_app)
    ⊎ IsChecked conditions services 9 [] flat_app
        (reconcile_object conditions services 9 (at flat_app)).1.obj.reconciled_version
reconcile_object-IsChecked_example = reconcile_object-IsChecked conditions services 9 (at flat_app)

-- the component version is in the cluster
abbrev stored_services : Services conditions
stored_services = record services {
  get_object = λ k key.
      ok (record {
        obj = flat_app;
        generation = 1;
        observed_generation = none;
        conditions = unknown;
      });
}

abbrev stored_key : NamespacedName
stored_key = record { namespace = "ocm-system"; name = "app" }

app_ends :
    (reconcile_request conditions stored_services 9 stored_key []).0
    ≡ return (requeue_after 600) none
unfolding reconcile_request reconcile_object update_status mark_retrying observe_generation
    update_component after_check checked_version reconcile expand_references check_version
    mark_not_ready mark_ready new_event progress fail fail_with stall succeed
    create_authenticated_ocm_context configure_access_credentials get_latest_valid_component_version
    list_component_versions first_valid sort_versions insert_version get_component_version
    verify_component verify_signatures verify_signature get_public_key construct_unique_name
app_ends = refl

request_component-Concluded_example :
    Ends "failed to get component object"
      (stored_services.get_object [] stored_key)
      (λ o. load conditions stored_services 9 o [])
      (λ w. w.obj.spec.suspend ≡ true)
      (Concluded conditions stored_services.patch)
      (requeue_after 600)
      none
      (reconcile_request conditions stored_services 9 stored_key []).1
request_component-Concluded_example =
    request_component-Concluded conditions conditions-laws stored_services 9 stored_key []
      (requeue_after 600) none app_ends

abbrev built : References
built =
    also
      (reference "base" "1.0.0" no_more []
        (record { namespace = "ocm-system"; name = "base-1.0.0-5" }))
      no_more

base_built :
    (parse_references conditions services 4 (some tt) app (ref_to "base" ∷ []) []).0 ≡ ok built
unfolding parse_references create_component_descriptor construct_unique_name replace_slashes decimal
    get_component_version
base_built = refl

parse_references-asked_example : listed built ≡ map asked (ref_to "base" ∷ [])
parse_references-asked_example =
    parse_references-asked conditions services 4 (some tt) app (ref_to "base" ∷ []) [] built
      base_built

calls_end : CallsEnd conditions services
unfolding get_component_version
calls_end = record {
  get_ends = λ k o cv n v. ground arith;
  convert_ends = λ a h. cc;
  hash_ends = λ n h. cc;
  owner_ends = λ cv d h. cc;
  write_ends = λ d f k h. h d;
}

abbrev weight : ComponentReference → ℕ
weight ref =
    if str_eq ref.component_name "app" then 5 else if str_eq ref.component_name "lib" then 3 else 1

no_cycle : IsAcyclic conditions services weight
unfolding get_component_version
no_cycle k o cv ref a h = ground arith

parse_references_ends_example :
    (parse_references conditions services 4 (some tt) app (ref_to "base" ∷ []) []).0 ≢ out_of_fuel
parse_references_ends_example =
    parse_references_ends conditions services calls_end weight no_cycle 4 (some tt) app
      (ref_to "base" ∷ []) [] (omega arith)

lib_found : get_component_version library [] (some tt) app "lib" "1.0.0" ≡ ok "lib"
unfolding get_component_version
lib_found = refl

abbrev lib_descriptor : NamespacedName
lib_descriptor = record { namespace = "ocm-system"; name = "lib-1.0.0-5" }

lib_written : create_component_descriptor conditions services "lib" app (ref_to "lib") [] ≡ (
  ok (record {
    key = lib_descriptor;
    created = false;
    owners = [];
    spec = "lib";
    version = "1.0.0";
  }),
  "lib-1.0.0-5" ∷ [],
)
unfolding create_component_descriptor construct_unique_name replace_slashes decimal
lib_written = refl

client-nested_panics_example :
    construct_for_reference conditions services 4 (some tt) app (ref_to "lib") []
    ≡ (panic, "lib-1.0.0-5" ∷ [])
client-nested_panics_example =
    client-nested_panics conditions library rest 1 (some tt) app (ref_to "lib") (ref_to "base") []
      [] ("lib-1.0.0-5" ∷ []) "lib"
      (record {
        key = lib_descriptor;
        created = false;
        owners = [];
        spec = "lib";
        version = "1.0.0";
      })
      lib_found lib_written refl

abbrev tree : Reference
tree = reference "app" "1.0.0" built [] app_key

abbrev to_base : List Identity
to_base = (("name", "base") ∷ []) ∷ []

get_component_descriptor-first_example :
    get_component_descriptor (library.get_descriptor []) to_base tree
    ≡ fetch_found (library.get_descriptor []) (first (selects to_base) (preorder tree))
get_component_descriptor-first_example = get_component_descriptor-first _ to_base tree

-- ===== src/Examples/Localizations.antt =====
-- The Localization controller at a localization whose source is a ready component version, and which
-- already has the name of its snapshot.
use ocm_controller.Prelude.{
  ◌≡◌, ◌⊎◌, ◌↔◌, In, refl, String, none, some, List, [], ◌∷◌, true, false, ◌&&◌, if◌then◌else◌,
  str_eq,
}
use ocm_controller.Prelude.Outcome.{
  Error, plain, wrap, ok, err, not_found, Result, is_not_found, is_not_a_tar,
}
use ocm_controller.Status.Runtime.{ready}
use ocm_controller.Status.World.{return, no_requeue}
use ocm_controller.Status.Mark.{
  update_status, mark_retrying, observe_generation, mark_not_ready, mark_ready, new_event, progress,
}
use ocm_controller.Status.Finish.{fail, fail_with, succeed, requeue}
use ocm_controller.Status.Deferred.{Ends, Told}
use ocm_controller.Mutation.Types.{MutationObject, localizes}
use ocm_controller.Localization.Types.{LocalizationServices}
use ocm_controller.Localization.Readiness.{complete, check_readiness}
use ocm_controller.Localization.Controller.{
  Here, check_source, reconcile, name_or_reconcile, reconcile_localization, reconcile_object,
  reconcile_request, load,
}
use ocm_controller.Component.Names.{NamespacedName}
use ocm_controller.Localization.Requests.{
  texts, Increasing, make_requests, make_requests-Increasing,
}
use ocm_controller.Localization.Written.{Patched, localization_object-IsPrepared}
use ocm_controller.Localization.Reported.{request_localization-Told}
use ocm_controller.Examples.Conditions.{conditions, conditions-laws, unknown}
use ocm_controller.Examples.Repository.{app}

abbrev services : LocalizationServices conditions
services = record {
  Cluster = List String;
  get_object = λ k key. err not_found;
  patch = λ w. (none, w.cluster);
  get_component_version = λ k key. ok (record {
    obj = app;
    generation = 1;
    observed_generation = some 1;
    conditions = conditions.mark_true unknown ready "Succeeded";
  });
  get_source = λ k ref. err not_found;
  get_snapshot = λ k key. err not_found;
  get_git_repository = λ k key. err not_found;
  random_string = λ k. ok "abcdefg";
  reconcile_mutation_object = λ w. (ok tt, record w { cluster = "snapshot" ∷ w.cluster });
}

abbrev localization : Here conditions services
localization = record {
  obj = record {
    kind = localizes;
    key = record { namespace = "ocm-system"; name = "app" };
    resource_version = "7";
    interval = 600;
    source_ref = record {
      ref = record { api_version = ""; kind = "ComponentVersion"; namespace = ""; name = "app" };
      resource_ref = none;
    };
    config_ref = none;
    values = none;
    values_from = none;
    patch = none;
    suspend = false;
    latest_snapshot_digest = "";
    latest_source_version = "";
    latest_config_version = "";
    latest_patch_source_version = "";
    snapshot_name = "app-abcdefg";
  };
  generation = 1;
  observed_generation = none;
  conditions = unknown;
  events = [];
  cluster = [];
}

localization_object-IsPrepared_example :
    ((localization.obj.suspend ≡ true)
      × ((reconcile_object conditions services localization).1 ≡ localization))
    ⊎ Patched conditions services localization (reconcile_object conditions services localization).1
localization_object-IsPrepared_example =
    localization_object-IsPrepared conditions services localization

-- the localization is in the cluster, and its data cannot be mutated
abbrev failing : LocalizationServices conditions
failing = record services {
  get_object = λ k key. ok (record {
    obj = localization.obj;
    generation = 1;
    observed_generation = none;
    conditions = unknown;
  });
  reconcile_mutation_object = λ w. (err (plain "broken"), w);
}

abbrev broken : Error
broken = wrap "failed to reconcile mutation object" (plain "broken")

localization_fails :
    (reconcile_request conditions failing localization.obj.key []).0
    ≡ return no_requeue (some broken)
unfolding reconcile_request reconcile_object update_status mark_retrying observe_generation
    reconcile_localization check_source name_or_reconcile reconcile complete check_readiness fail
    fail_with succeed requeue mark_not_ready mark_ready new_event progress is_not_found is_not_a_tar
localization_fails = refl

request_localization-Told_example :
    Ends "failed to get localization object"
      (failing.get_object [] localization.obj.key)
      (λ o. load conditions failing o [])
      (λ w. w.obj.suspend ≡ true)
      (Told conditions failing.patch)
      no_requeue
      (some broken)
      (reconcile_request conditions failing localization.obj.key []).1
request_localization-Told_example =
    request_localization-Told conditions conditions-laws failing localization.obj.key [] no_requeue
      (some broken) localization_fails

abbrev first_key : NamespacedName
first_key = record { namespace = "ocm-system"; name = "b" }

abbrev second_key : NamespacedName
second_key = record { namespace = "ocm-system"; name = "a" }

make_requests-Increasing_example :
    Increasing (texts (make_requests (first_key ∷ second_key ∷ first_key ∷ [])))
    × ((t : String)
        → In t (texts (make_requests (first_key ∷ second_key ∷ first_key ∷ [])))
          ↔ In t (texts (first_key ∷ second_key ∷ first_key ∷ [])))
make_requests-Increasing_example =
    make_requests-Increasing (first_key ∷ second_key ∷ first_key ∷ [])

-- a localization of the component version `app`, indexed by it
abbrev indexed : List MutationObject
indexed = localization.obj ∷ []

abbrev listing : String → String → Result (List NamespacedName)
listing field term =
    if str_eq field ".metadata.source" && str_eq "ocm-system/app" term
    then ok (localization.obj.key ∷ [])
    else ok []

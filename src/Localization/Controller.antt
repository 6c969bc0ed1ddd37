-- ===== src/Localization/Controller.antt =====
-- Reconcile and reconcile of controllers/localization_controller.go.
use ocm_controller.Prelude.{String, Bool, not, Option, none, some, [], if◌then◌else◌, str_eq}
use ocm_controller.Prelude.Outcome.{Error, Result, is_not_found, is_not_a_tar}
use ocm_controller.Status.Runtime.{Runtime}
use ocm_controller.Status.World.{
  request, ◌>>=◌, ◌>>◌, World, Exit, return, Requeue, no_requeue, requeue_now, requeue_after, Act,
  modify, read, try, try_step, when, deferred,
}
use ocm_controller.Status.Mark.{progress, update_status}
use ocm_controller.Status.Finish.{fail_with, fail, succeed, requeue}
use ocm_controller.Component.Names.{NamespacedName}
use ocm_controller.ComponentVersion.Services.{Stored}
use ocm_controller.ComponentVersion.Controller.{same_generation}
use ocm_controller.Resource.Types.{generate_snapshot_name}
use ocm_controller.Mutation.Types.{DataReference, MutationObject, PatchStrategicMerge, get_vid}
use ocm_controller.Localization.Types.{LocalizationServices}
use ocm_controller.Localization.Readiness.{complete, check_readiness, check_flux_source_readiness}

module _ (r : Runtime) (s : LocalizationServices r) where
  open s use {Cluster, get_object, patch, random_string, reconcile_mutation_object}

  abbrev pub Here : Type 0
  Here = World r.Conditions Cluster MutationObject

  abbrev pub Step : Type 0 → Type 0
  Step = Act Here

  abbrev pub interval : Here → Requeue
  interval w = requeue_after w.obj.interval

  -- MarkNotReady, and a return that waits for the watched source
  abbrev pub wait : {A : Type 0} → String → Step A
  wait reason = fail_with r reason (λ _. no_requeue) none

  abbrev pub completed : String → DataReference → DataReference
  completed ns data_ref = record data_ref { ref = complete ns data_ref.ref }

  abbrev pub complete_source : Here → Here
  complete_source w = record w {
    obj = record (w.obj) { source_ref = completed w.obj.key.namespace w.obj.source_ref };
  }

  abbrev pub complete_config : DataReference → Here → Here
  complete_config config w = record w {
    obj = record (w.obj) { config_ref = some (completed w.obj.key.namespace config) };
  }

  -- the two blocks after a readiness check
  abbrev pub demand : String → String → (Here → Result Bool) → Step (Unit {0})
  demand with_error not_ready check = do
    is_ready ← try check (λ e. wait with_error)
    (if is_ready then modify (λ w. w) else wait not_ready)

  unfoldable pub check_source : Step (Unit {0})
  check_source = do
    modify complete_source
    demand "SourceRefNotReadyWithError" "SourceRefNotReady"
        (λ w. check_readiness r s w.cluster w.obj.source_ref.ref)

  abbrev pub check_config_ref : Option DataReference → Step (Unit {0})
  check_config_ref none = modify λ w. w
  check_config_ref (some config) = do
    modify (complete_config config)
    demand "ConfigRefNotReadyWithError" "ConfigRefNotReady"
        (λ w. check_readiness r s w.cluster (complete w.obj.key.namespace config.ref))

  abbrev pub check_patch_source : Option PatchStrategicMerge → Step (Unit {0})
  check_patch_source none = modify λ w. w
  check_patch_source (some patch_ref) =
      demand "PatchStrategicMergeSourceRefNotReadyWithError" "PatchStrategicMergeSourceRefNotReady"
        (λ w. check_flux_source_readiness r s w.cluster patch_ref.source_ref)

  -- the block under the error of ReconcileMutationObject
  abbrev pub mutation_failed : Error → Step (Unit {0})
  mutation_failed e =
      if is_not_found e
      then requeue interval
      else if is_not_a_tar e
      then fail r "SourceReasonNotATarArchive" "source resource is not a tar archive" e
      else fail r "ReconcileMutationObjectFailed" "failed to reconcile mutation object" e

  unfoldable pub reconcile : Step (Unit {0})
  reconcile = do
    same ← read λ w. same_generation w.generation w.observed_generation
    when (not same) (modify (progress r))
    try_step reconcile_mutation_object mutation_failed
    succeed r interval

  abbrev pub set_snapshot_name : String → Here → Here
  set_snapshot_name name w = record w { obj = record (w.obj) { snapshot_name = name } }

  -- Reconcile, once all sources are ready
  unfoldable pub name_or_reconcile : Step (Unit {0})
  name_or_reconcile = do
    name ← read λ w. w.obj.snapshot_name
    (if str_eq name ""
        then (do
          generated ←
              try (λ w. generate_snapshot_name (random_string w.cluster) w.obj.key.name)
                (fail r "NameGenerationFailed" "failed to generate snapshot name")
          modify (set_snapshot_name generated)
          requeue λ _. requeue_now)
        else reconcile)

  -- Reconcile, after the deferred update is set up
  unfoldable pub reconcile_localization : Step (Unit {0})
  reconcile_localization = do
    modify (progress r)
    check_source
    config ← read λ w. w.obj.config_ref
    check_config_ref config
    source ← read λ w. w.obj.patch
    check_patch_source source
    name_or_reconcile

  unfoldable pub reconcile_object : Step (Unit {0})
  reconcile_object w =
      if w.obj.suspend
      then (return no_requeue none, w)
      else deferred (update_status r (λ w'. get_vid w'.obj) patch) reconcile_localization w

  abbrev pub load : Stored r.Conditions MutationObject → Cluster → Here
  load o k = record {
    obj = o.obj;
    generation = o.generation;
    observed_generation = o.observed_generation;
    conditions = o.conditions;
    events = [];
    cluster = k;
  }

  -- Reconcile: how it ends, and the world that it leaves if the object was there.
  unfoldable pub reconcile_request : NamespacedName → Cluster → Exit (Unit {0}) × Option Here
  reconcile_request key k =
      request "failed to get localization object" (get_object k key) (λ o. load o k)
        reconcile_object

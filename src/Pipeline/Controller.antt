-- ===== src/Pipeline/Controller.antt =====
-- Reconcile, its deferred function, and reconcile of controllers/resourcepipeline_controller.go.
use ocm_controller.Prelude.{String, ◌||◌, Option, none, some, List, [], ◌∷◌, if◌then◌else◌, str_eq}
use ocm_controller.Prelude.Outcome.{
  Error, Result, ok, err, panic, wrap, cv_not_ready, context, is_not_found, is_cv_not_ready,
}
use ocm_controller.Status.Runtime.{Runtime, ready, reconciling}
use ocm_controller.Status.World.{
  ◌>>=◌, ◌>>◌, World, no_requeue, requeue_now, requeue_after, Act, modify, read, try, try_op,
  returns,
}
use ocm_controller.Status.Mark.{progressing}
use ocm_controller.Status.Finish.{requeue}
use ocm_controller.Component.Names.{NamespacedName, Identity}
use ocm_controller.Component.References.{ref_version, descriptor_ref}
use ocm_controller.ComponentVersion.Types.{ComponentVersion}
use ocm_controller.ComponentVersion.Services.{Stored}
use ocm_controller.Ocm.Fetch.{ResourceReference, add_all}
use ocm_controller.Resource.Types.{generate_snapshot_name}
use ocm_controller.Pipeline.Values.{Value, Fields, no_fields, process_value_functions}
use ocm_controller.Pipeline.Types.{ResourcePipeline, PipelineServices, WasmStep}

-- a pointer that is read
abbrev pub deref : {A : Type 0} → Option A → Result A
deref (some a) = ok a
deref none = panic

module _ (r : Runtime) (s : PipelineServices r) where
  open s use {
    Cluster, Octx, Access, get_object, patch, random_string, get_component_version_object,
    create_authenticated_ocm_context, get_component_version, get_resource, make_temp,
    new_projection, download, parse_parameters, parse_values, print_values, init_runtime,
    fetch_wasm_blob, call, write_snapshot,
  }

  abbrev pub Here : Type 0
  Here = World r.Conditions Cluster ResourcePipeline

  abbrev pub Step : Type 0 → Type 0
  Step = Act Here

  -- `return ctrl.Result{}, fmt.Errorf("msg: %w", err)`
  abbrev pub fails_with : {A : Type 0} → String → Error → Step A
  fails_with msg e = returns no_requeue (some (wrap msg e))

  -- the block under the error of a step
  abbrev pub failed : {A : Type 0} → Error → Step A
  failed = fails_with "failed to execute pipeline step"

  abbrev pub source_key : Here → NamespacedName
  source_key w = record { namespace = w.obj.source_ref.namespace; name = w.obj.source_ref.name }

  abbrev pub ready_version : Stored r.Conditions ComponentVersion → Result ComponentVersion
  ready_version cv = if r.is_ready cv.conditions then ok cv.obj else err cv_not_ready

  -- the block under the error of getComponentVersionAccess
  abbrev pub no_access : {A : Type 0} → Error → Step A
  no_access e =
      if is_not_found e || is_cv_not_ready e
      then requeue (λ w. requeue_after w.obj.interval)
      else fails_with "could not get component version" e

  -- getComponentVersionAccess, with the block under its error
  unfoldable pub get_component_version_access : Step Access
  get_component_version_access = do
    found ← try (λ w. get_component_version_object w.cluster (source_key w)) no_access
    cv ← try (λ _. ready_version found) no_access
    octx ←
        try
          (λ w.
            context "could not create auth context" (create_authenticated_ocm_context w.cluster cv))
          no_access
    try (λ w. get_component_version w.cluster octx cv cv.spec.component cv.reconciled_version)
        no_access

  abbrev pub step_values : Option String → Result Fields
  step_values none = ok no_fields
  step_values (some raw) = context "failed to parse raw values" (parse_values raw)

  -- executePipelineStepWithTimeout and executePipelineStep, with the block under their error
  unfoldable pub execute_pipeline_step : List (String × Value) → WasmStep → Step (Unit {0})
  execute_pipeline_step parameters step = do
    timeout ← try (λ _. deref step.timeout) failed
    data' ← try (λ w. context "failed to fetch wasm script" (fetch_wasm_blob w.cluster step)) failed
    values ← try (λ _. step_values step.values) failed
    processed ←
        try
          (λ _.
            context "failed to process value functions" (process_value_functions parameters values))
          failed
    merged ←
        try (λ _. context "failed interpret values functions for step" (print_values processed))
          failed
    try_op (λ w. call timeout step.name data' merged) (λ e. failed (wrap "failed to run step" e))

  abbrev pub execute_steps : List (String × Value) → List WasmStep → Step (Unit {0})
  execute_steps parameters [] = modify λ w. w
  execute_steps parameters (step ∷ steps) = do
    execute_pipeline_step parameters step
    execute_steps parameters steps

  abbrev pub identity_of : ComponentVersion → ResourceReference → Identity
  identity_of cv ref = add_all ref.extra_identity (
      ("component-name", (descriptor_ref cv.component_descriptor).name)
      ∷ ("component-version", ref_version cv.component_descriptor)
      ∷ ("resource-name", ref.name)
      ∷ ("resource-version", ref.version)
      ∷ [])

  -- getIdentity, with the block under its error
  unfoldable pub get_identity : Step Identity
  get_identity = do
    cv ←
        try (λ w. get_component_version_object w.cluster (source_key w))
          (fails_with "failed to get identity for source ref")
    ref ← try (λ w. deref w.obj.source_ref.resource_ref) (fails_with "")
    read λ _. identity_of cv.obj ref

  abbrev pub parameters_of : Option String → Result (List (String × Value))
  parameters_of none = ok []
  parameters_of (some raw) = parse_parameters raw

  -- reconcile, from the resource of the component version on
  unfoldable pub run_pipeline : Access → Step (Unit {0})
  run_pipeline cv = do
    ref ← try (λ w. deref w.obj.source_ref.resource_ref) (fails_with "")
    res ← try (λ _. get_resource cv ref.name) (fails_with "resource not found")
    dir ← try_op (λ _. make_temp) (fails_with "failed to get temp folder")
    tmpfs ← try_op (λ _. new_projection dir) (fails_with "failed to create temp folder")
    downloaded ← try_op (λ _. download res dir) (fails_with "failed to download resource")
    parameters ← try (λ w. parameters_of w.obj.parameters) (fails_with "failed to parse parameters")
    runtime ← try_op (λ _. init_runtime cv dir) (fails_with "could not create wasm runtime")
    steps ← try (λ w. deref w.obj.steps) (fails_with "")
    execute_steps parameters steps
    id ← get_identity
    digest ←
        try_op (λ w. write_snapshot w.obj dir id) (fails_with "failed to create write snapshot")
    modify λ w. record w {
      obj = record (w.obj) { latest_snapshot_digest = digest };
      conditions = r.delete w.conditions reconciling;
    }
    requeue λ w. requeue_after w.obj.interval

  unfoldable pub reconcile : Step (Unit {0})
  reconcile = do
    modify λ w. record w { conditions = r.mark_true w.conditions reconciling progressing }
    cv ← get_component_version_access
    run_pipeline cv

  -- Reconcile, after the deferred function is set up
  unfoldable pub reconcile_pipeline : Step (Unit {0})
  reconcile_pipeline = do
    name ← read λ w. w.obj.snapshot_name
    (if str_eq name ""
        then (do
          generated ←
              try (λ w. generate_snapshot_name (random_string w.cluster) w.obj.key.name)
                (λ e. returns no_requeue (some e))
          modify λ w. record w { obj = record (w.obj) { snapshot_name = generated } }
          requeue λ _. requeue_now)
        else (do modify λ w. record w { conditions = r.delete w.conditions ready }; reconcile))

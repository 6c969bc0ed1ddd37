-- ===== src/ComponentVersion/Controller.antt =====
-- Reconcile and reconcile of controllers/componentversion_controller.go.
use ocm_controller.Prelude.{
  ℕ, String, Bool, false, not, Option, none, some, [], if◌then◌else◌, nat_eq,
}
use ocm_controller.Prelude.Outcome.{Error, Result, ok, err, plain}
use ocm_controller.Status.Runtime.{Runtime}
use ocm_controller.Status.World.{
  request, ◌>>=◌, ◌>>◌, World, Exit, return, Requeue, no_requeue, requeue_after, Act, modify, read,
  try, try_op, try_step, when, deferred,
}
use ocm_controller.Status.Mark.{progress, update_status}
use ocm_controller.Status.Finish.{fail_with, fail, stall, succeed}
use ocm_controller.Component.Names.{NamespacedName, construct_unique_name}
use ocm_controller.Component.References.{References, reference, no_more}
use ocm_controller.ComponentVersion.Types.{ComponentVersion, get_vid}
use ocm_controller.ComponentVersion.Services.{Services, DescriptorObject, Stored}
use ocm_controller.ComponentVersion.Version.{check_version}
use ocm_controller.ComponentVersion.Expand.{own_if_new, parse_references}

-- obj.Generation != obj.Status.ObservedGeneration
abbrev pub same_generation : ℕ → Option ℕ → Bool
same_generation g none = false
same_generation g (some o) = nat_eq g o

module _ (r : Runtime) (s : Services r) (fuel : ℕ) where
  open s use {
    Cluster, Octx, Access, Spec, Converted, get_object, patch, create_or_update, empty_spec,
    create_authenticated_ocm_context, verify_component, get_component_version, references, convert,
    converted_name, converted_version, converted_spec, hash,
  }

  abbrev pub Here : Type 0
  Here = World r.Conditions Cluster ComponentVersion

  abbrev pub Step : Type 0 → Type 0
  Step = Act Here

  abbrev pub interval : Here → Requeue
  interval w = requeue_after w.obj.spec.interval

  -- MarkNotReady where the error is reported only on the object, and the interval is waited for
  abbrev pub retry_later : {A : Type 0} → String → Error → Step A
  retry_later reason e = fail_with r reason interval none

  -- the function handed to CreateOrUpdate for the component's own descriptor
  abbrev pub describe :
      ComponentVersion → Converted → DescriptorObject Spec → Result (DescriptorObject Spec)
  describe obj cd d = elim (own_if_new r s obj d) [
    | ok d' ↦ elim (converted_spec cd) [
      | some spec ↦ ok (record d' { spec = spec; version = converted_version cd })
      | none ↦ err (plain "object was not a component descriptor")
    ]
    | other ↦ other
  ]

  -- parseReferences, where references are expanded
  unfoldable pub expand_references : Octx → Access → Step References
  expand_references octx cv = do
    expand ← read (λ w. w.obj.spec.expand)
    (if expand
        then (do
          modify (progress r)
          try_op (λ w. parse_references r s fuel (some octx) w.obj (references cv))
              (fail r "ParseReferencesFailed" "failed to parse references"))
        else read (λ _. no_more))

  -- obj.Status.ComponentDescriptor = componentDescriptor; obj.Status.ReconciledVersion = version
  abbrev pub set_status : Converted → DescriptorObject Spec → References → String → Here → Here
  set_status cd d refs version w = record w {
    obj = record (w.obj) {
      component_descriptor = reference (converted_name cd) (converted_version cd) refs [] d.key;
      reconciled_version = version;
    };
  }

  unfoldable pub reconcile : Octx → String → Step (Unit {0})
  reconcile octx version = do
    same ← read (λ w. same_generation w.generation w.observed_generation)
    when (not same) (modify (progress r))
    cv ←
        try (λ w. get_component_version w.cluster (some octx) w.obj w.obj.spec.component version)
          (fail r "ComponentVersionInvalid" "failed to get component version")
    cd ←
        try (λ w. convert cv)
          (fail r "ConvertComponentDescriptorFailed" "failed to convert component descriptor")
    modify (progress r)
    name ←
        try (λ w. construct_unique_name hash (converted_name cd) (converted_version cd) [])
          (fail r "NameGenerationFailed" "failed to generate name")
    d ←
        try_op
          (λ w.
            create_or_update
              (record {
                key = record { namespace = w.obj.key.namespace; name = name };
                created = false;
                owners = [];
                spec = empty_spec;
                version = "";
              })
              (describe w.obj cd))
          (fail r "CreateOrUpdateComponentDescriptorFailed"
            "failed to create or update component descriptor")
    refs ← expand_references octx cv
    modify (set_status cd d refs version)
    succeed r interval

  -- the end of Reconcile, once the version was checked
  unfoldable pub after_check : Octx → Bool × String → Step (Unit {0})
  after_check octx (update, version) =
      if update
      then (do
        modify (progress r)
        verified ←
            try (λ w. verify_component w.cluster octx w.obj version)
              (retry_later "ComponentVerificationFailed")
        (if verified
            then reconcile octx version
            else fail_with r "ComponentVerificationFailed" interval none))
      else succeed r interval

  -- `update, version, err := r.checkVersion(ctx, octx, obj)`, and the block under its error
  unfoldable pub checked_version : Octx → Step (Bool × String)
  checked_version octx = try_step (check_version r s octx) (retry_later "CheckVersionFailedReason")

  -- Reconcile, after the deferred update is set up
  unfoldable pub update_component : Step (Unit {0})
  update_component = do
    modify (progress r)
    octx ←
        try (λ w. create_authenticated_ocm_context w.cluster w.obj)
          (λ e. stall r "AuthenticatedContextCreationFailed")
    found ← checked_version octx
    after_check octx found

  unfoldable pub reconcile_object : Step (Unit {0})
  reconcile_object w =
      if w.obj.spec.suspend
      then (return no_requeue none, w)
      else deferred (update_status r (λ w'. get_vid w'.obj) patch) update_component w

  abbrev pub load : Stored r.Conditions ComponentVersion → Cluster → Here
  load o k = record {
    obj = o.obj;
    generation = o.generation;
    observed_generation = o.observed_generation;
    conditions = o.conditions;
    events = [];
    cluster = k;
  }

  -- Reconcile: how it ends, and the world that it leaves if the object was there.
  unfoldable pub reconcile_request : NamespacedName → Cluster → Exit (Unit {0}) × Option Here
  reconcile_request key k =
      request "failed to get component object" (get_object k key) (λ o. load o k) reconcile_object

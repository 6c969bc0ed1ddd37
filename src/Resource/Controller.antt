-- ===== src/Resource/Controller.antt =====
-- Reconcile and reconcile of controllers/resource_controller.go.
use ocm_controller.Prelude.{String, false, not, Option, none, some, [], if◌then◌else◌, str_eq}
use ocm_controller.Prelude.Outcome.{Error, Result, ok, err, panic, plain, context, is_not_found}
use ocm_controller.Status.Runtime.{Runtime}
use ocm_controller.Status.World.{
  request, ◌>>=◌, ◌>>◌, World, Exit, return, Requeue, no_requeue, requeue_now, requeue_after, Act,
  modify, read, try, try_op, when, deferred,
}
use ocm_controller.Status.Mark.{progress, update_status}
use ocm_controller.Status.Finish.{fail_with, fail, stall, succeed, requeue}
use ocm_controller.Component.Names.{NamespacedName, Identity}
use ocm_controller.Component.References.{get_component_descriptor}
use ocm_controller.ComponentVersion.Types.{ComponentVersion}
use ocm_controller.ComponentVersion.Services.{Stored}
use ocm_controller.ComponentVersion.Controller.{same_generation}
use ocm_controller.Ocm.Library.{Descriptor}
use ocm_controller.Ocm.Fetch.{ResourceReference, resource_identity}
use ocm_controller.Resource.Types.{
  ResourceObject, ResourceServices, SnapshotObject, get_version, get_vid, generate_snapshot_name,
}

module _ (r : Runtime) (s : ResourceServices r) where
  open s use {
    Cluster, Octx, Data, get_object, patch, random_string, get_component_version, get_descriptor,
    create_authenticated_ocm_context, get_resource, create_or_update, set_owner_reference,
  }

  abbrev pub Here : Type 0
  Here = World r.Conditions Cluster ResourceObject

  abbrev pub Step : Type 0 → Type 0
  Step = Act Here

  abbrev pub interval : Here → Requeue
  interval w = requeue_after w.obj.interval

  -- if obj.Spec.SourceRef.Namespace == ""
  abbrev pub complete_ref : Here → Here
  complete_ref w = record w {
    obj = record (w.obj) {
      source_ref = record (w.obj.source_ref) {
        namespace =
            if str_eq w.obj.source_ref.namespace ""
            then w.obj.key.namespace
            else w.obj.source_ref.namespace;
      };
    };
  }

  abbrev pub source_key : Here → NamespacedName
  source_key w = record { namespace = w.obj.source_ref.namespace; name = w.obj.source_ref.name }

  -- the block under the error of reading the component version
  abbrev pub no_component_version : {A : Type 0} → Error → Step A
  no_component_version e =
      if is_not_found e
      then requeue interval
      else fail r "ComponentVersionNotFound" "failed to get component version" e

  abbrev pub version_of : Here → String
  version_of w =
      if str_eq (get_version w.obj.source_ref) "" then "latest" else get_version w.obj.source_ref

  -- a pointer that is read
  abbrev pub deref : {A : Type 0} → Option A → Result A
  deref (some a) = ok a
  deref none = panic

  unfoldable pub find_descriptor : ComponentVersion → ResourceReference → Step Descriptor
  find_descriptor cv ref = do
    found ←
        try
          (λ w.
            get_component_descriptor (get_descriptor w.cluster) ref.reference_path
              cv.component_descriptor)
          (fail r "GetComponentDescriptorFailed" "failed to get component descriptor for resource")
    try
        (λ _. elim found [
          | some cd ↦ ok cd
          | none ↦
              err (plain "couldn't find component descriptor for reference or any root components")
        ])
        (λ e. fail_with r "ComponentDescriptorNotFound" (λ _. no_requeue) (some e))

  -- the function handed to CreateOrUpdate
  abbrev pub fill :
      ResourceObject → Identity → String → String → SnapshotObject → Result SnapshotObject
  fill obj identity digest tag o =
      elim (if o.created
        then ok o
        else context "failed to set owner to snapshot object" (set_owner_reference obj o)) [
          | ok o' ↦ ok (record o' { identity = identity; digest = digest; tag = tag })
          | other ↦ other
        ]

  abbrev pub set_status : ComponentVersion → Here → Here
  set_status cv w = record w {
    obj = record (w.obj) {
      last_applied_resource_version = get_version w.obj.source_ref;
      last_applied_component_version = cv.reconciled_version;
    };
  }

  unfoldable pub write_snapshot : Identity → String → String → Step SnapshotObject
  write_snapshot identity digest tag =
      try_op
        (λ w.
          create_or_update
            (record {
              key = record { namespace = w.obj.key.namespace; name = w.obj.snapshot_name };
              created = false;
              owners = [];
              identity = [];
              digest = "";
              tag = "";
            })
            (fill w.obj identity digest tag))
        (fail r "CreateOrUpdateSnapshotFailed" "failed to create or update snapshot")

  -- from the resource's content on; GetReferencePath reads the pointer to the resource reference
  unfoldable pub make_snapshot : ComponentVersion → String → Step (Unit {0})
  make_snapshot cv digest = do
    ref ← try (λ w. deref w.obj.source_ref.resource_ref) (λ e. requeue λ _. no_requeue)
    cd ← find_descriptor cv ref
    name ← read λ w. w.obj.snapshot_name
    (if str_eq name ""
        then fail_with r "SnapshotNameEmpty" (λ _. no_requeue)
            (some (plain "snapshot name should not be empty"))
        else (do
          modify (progress r)
          version ← read version_of
          snapshot ← write_snapshot (resource_identity cd ref version) digest version
          modify (set_status cv)
          succeed r interval))

  unfoldable pub reconcile : Step (Unit {0})
  reconcile = do
    same ← read λ w. same_generation w.generation w.observed_generation
    when (not same) (modify (progress r))
    modify complete_ref
    cv ← try (λ w. get_component_version w.cluster (source_key w)) no_component_version
    (if r.is_ready cv.conditions
        then (do
          modify (progress r)
          octx ←
              try (λ w. create_authenticated_ocm_context w.cluster cv.obj)
                (λ e. stall r "AuthenticatedContextCreationFailed")
          fetched ←
              try_op (λ w. get_resource octx cv.obj w.obj.source_ref.resource_ref)
                (fail r "GetResourceFailed" "failed to get resource")
          make_snapshot cv.obj fetched.1)
        else fail_with r "ComponentVersionNotReady" interval none)

  abbrev pub set_snapshot_name : String → Here → Here
  set_snapshot_name name w = record w { obj = record (w.obj) { snapshot_name = name } }

  -- Reconcile, after the deferred update is set up
  unfoldable pub reconcile_resource : Step (Unit {0})
  reconcile_resource = do
    modify (progress r)
    name ← read λ w. w.obj.snapshot_name
    (if str_eq name ""
        then (do
          generated ←
              try (λ w. generate_snapshot_name (random_string w.cluster) w.obj.key.name)
                (fail r "NameGenerationFailed" "failed to generate snapshot name")
          modify (set_snapshot_name generated)
          requeue λ _. requeue_now)
        else reconcile)

  unfoldable pub reconcile_object : Step (Unit {0})
  reconcile_object w =
      if w.obj.suspend
      then (return no_requeue none, w)
      else deferred (update_status r (λ w'. get_vid w'.obj) patch) reconcile_resource w

  abbrev pub load : Stored r.Conditions ResourceObject → Cluster → Here
  load o k = record {
    obj = o.obj;
    generation = o.generation;
    observed_generation = o.observed_generation;
    conditions = o.conditions;
    events = [];
    cluster = k;
  }

  -- Reconcile: how it ends, and the world that it leaves if the object was there.
  unfoldable pub reconcile_request : NamespacedName → Cluster → Exit (Unit {0}) × Option Here
  reconcile_request key k =
      request "failed to get resource object" (get_object k key) (λ o. load o k) reconcile_object

-- ===== src/Snapshot/Controller.antt =====
-- Reconcile of controllers/snapshot_controller.go.
use Prim.Native.String.{◌++◌}
use ocm_controller.Prelude.{String, not, Option, none, some, [], if◌then◌else◌}
use ocm_controller.Prelude.Outcome.{wrap}
use ocm_controller.Status.Runtime.{Runtime}
use ocm_controller.Status.World.{
  request, ◌>>=◌, ◌>>◌, Exit, return, no_requeue, Act, modify, try, try_step, deferred, returns,
}
use ocm_controller.Status.Mark.{progress, update_status}
use ocm_controller.Status.Finish.{fail, succeed}
use ocm_controller.Component.Names.{NamespacedName, construct_repository_name}
use ocm_controller.ComponentVersion.Services.{Stored}
use ocm_controller.Snapshot.Types.{Snapshot, get_vid}
use ocm_controller.Snapshot.Delete.{
  SnapshotServices, Here, snapshot_finalizer, contains, add_finalizer, reconcile_delete_snapshot,
}

module _ (r : Runtime) (s : SnapshotServices r) (registry_service_name : String) where
  open s use {Cluster, get_object, patch, hash}

  abbrev pub Step : Type 0
  Step = Act (Here r s) (Unit {0})

  abbrev pub set_status : String → Here r s → Here r s
  set_status name w = record w {
    obj = record (w.obj) {
      last_reconciled_digest = w.obj.digest;
      last_reconciled_tag = w.obj.tag;
      repository_url = "https://" ++ (registry_service_name ++ ("/" ++ name));
    };
  }

  -- Reconcile, after the deferred update is set up
  unfoldable pub reconcile_snapshot : Step
  reconcile_snapshot = do
    modify (progress r)
    name ←
        try (λ w. construct_repository_name hash w.obj.identity)
          (fail r "CreateRepositoryNameFailed" "failed to construct name")
    modify (set_status name)
    succeed r (λ _. no_requeue)

  abbrev pub with_finalizer : Here r s → Here r s
  with_finalizer w = record w {
    obj = record (w.obj) { finalizers = add_finalizer snapshot_finalizer w.obj.finalizers };
  }

  -- the branch of an object that is being deleted
  unfoldable pub reconcile_deleted : Step
  reconcile_deleted w =
      if not (contains snapshot_finalizer w.obj.finalizers)
      then (return no_requeue none, w)
      else (do
        try_step (reconcile_delete_snapshot r s)
            (λ e. returns no_requeue (some (wrap "failed to remove finalizer" e)))
        returns no_requeue none)
          w

  unfoldable pub reconcile_object : Step
  reconcile_object w =
      if w.obj.deleted
      then reconcile_deleted w
      else if w.obj.suspend
      then (return no_requeue none, w)
      else deferred (update_status r (λ w'. get_vid w'.obj) patch) reconcile_snapshot
          (with_finalizer w)

  abbrev pub load : Stored r.Conditions Snapshot → Cluster → Here r s
  load o k = record {
    obj = o.obj;
    generation = o.generation;
    observed_generation = o.observed_generation;
    conditions = o.conditions;
    events = [];
    cluster = k;
  }

  -- Reconcile: how it ends, and the world that it leaves if the object was there.
  unfoldable pub reconcile_request : NamespacedName → Cluster → Exit (Unit {0}) × Option (Here r s)
  reconcile_request key k =
      request "failed to get component object" (get_object k key) (λ o. load o k) reconcile_object

-- ===== src/Examples/Snapshots.antt =====
-- The Snapshot controller at a snapshot, while it lives and when it is deleted.
use ocm_controller.Prelude.{◌≡◌, ◌⊎◌, refl, String, true, false, none, Option, List, [], ◌∷◌}
use ocm_controller.Prelude.Outcome.{Error, ok, err, not_found, transport, Op}
use ocm_controller.Status.World.{return, no_requeue}
use ocm_controller.Status.Mark.{
  update_status, mark_retrying, observe_generation, mark_not_ready, mark_ready, new_event, progress,
}
use ocm_controller.Status.Finish.{fail, fail_with, succeed}
use ocm_controller.Status.Deferred.{Concluded}
use ocm_controller.Component.Names.{construct_repository_name, hash_identity}
use ocm_controller.Snapshot.Delete.{
  SnapshotServices, Here, contains, snapshot_finalizer, reconcile_delete_snapshot,
}
use ocm_controller.Snapshot.Deleted.{IsGone, reconcile_delete_snapshot-IsGone}
use ocm_controller.Snapshot.Controller.{reconcile_snapshot, reconcile_object}
use ocm_controller.Snapshot.Settled.{snapshot_object-Concluded}
use ocm_controller.Examples.Conditions.{conditions, conditions-laws, unknown}

-- a cache that has no data, as it says with the status 404
abbrev empty_cache : String → String → Op (List String) (Unit {0})
empty_cache name tag k = (err (transport 404 []), name ∷ k)

abbrev services : SnapshotServices conditions
services = record {
  Cluster = List String;
  get_object = λ k key. err not_found;
  patch = λ w. (none, w.cluster);
  new_helper = λ w. ok tt;
  hash = λ identity. ok 7;
  delete_data = empty_cache;
}

abbrev snapshot : Here conditions services
snapshot = record {
  obj = record {
    key = record { namespace = "ocm-system"; name = "app" };
    deleted = true;
    finalizers = snapshot_finalizer ∷ [];
    owners = [];
    identity = ("component-name", "app") ∷ [];
    digest = "sha256:2";
    tag = "v2.0.0";
    suspend = false;
    last_reconciled_digest = "";
    last_reconciled_tag = "";
    repository_url = "";
  };
  generation = 1;
  observed_generation = none;
  conditions = unknown;
  events = [];
  cluster = [];
}

reconcile_delete_snapshot-IsGone_example :
    ((reconcile_delete_snapshot conditions services snapshot).1.obj ≡ snapshot.obj)
    ⊎ ((name : String) × (construct_repository_name services.hash snapshot.obj.identity ≡ ok name)
        × IsGone (empty_cache name "v2.0.0" []).0
        × (contains snapshot_finalizer
              (reconcile_delete_snapshot conditions services snapshot).1.obj.finalizers
            ≡ false))
reconcile_delete_snapshot-IsGone_example =
    reconcile_delete_snapshot-IsGone conditions services snapshot

-- the same snapshot while it lives
abbrev living : Here conditions services
living = record snapshot { obj = record (snapshot.obj) { deleted = false } }

living_succeeds :
    (reconcile_object conditions services "registry" living).0 ≡ return no_requeue none
unfolding reconcile_object update_status mark_retrying observe_generation reconcile_snapshot fail
    fail_with succeed construct_repository_name hash_identity mark_not_ready mark_ready new_event
    progress
living_succeeds = refl

abbrev no_error : Option Error
no_error = none

snapshot_object-Concluded_example :
    ((living.obj.suspend ≡ true)
      × (no_error ≡ none)
      × ((reconcile_object conditions services "registry" living).1 ≡ living))
    ⊎ Concluded conditions services.patch no_requeue none
        (reconcile_object conditions services "registry" living).1
snapshot_object-Concluded_example =
    snapshot_object-Concluded conditions conditions-laws services "registry" living no_requeue none
      refl living_succeeds

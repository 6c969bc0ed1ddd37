-- ===== src/Examples/Deletions.antt =====
-- A snapshot is deleted from the cache of an OCI registry.
use ocm_controller.Prelude.{◌≡◌, ◌⊎◌, false, none, [], ◌∷◌, true}
use ocm_controller.Prelude.Outcome.{ok, err, not_found}
use ocm_controller.Cache.Contract.{Cache}
use ocm_controller.Cache.Client.{oci_cache}
use ocm_controller.Cache.Opened.{IsTag}
use ocm_controller.Cache.Stored.{oci_cache-IsCache}
use ocm_controller.Snapshot.Delete.{Here, contains, snapshot_finalizer, reconcile_delete_snapshot}
use ocm_controller.Snapshot.Uncached.{
  Rest, cached_services, IsUncached, reconcile_delete_snapshot-IsUncached,
}
use ocm_controller.Examples.Conditions.{conditions, unknown}
use ocm_controller.Examples.Registries.{registry, registry-laws, session}

abbrev cache : Cache
cache = oci_cache registry

abbrev rest : Rest conditions
rest = record {
  Cluster = Unit {0};
  get_object = λ k key. err not_found;
  patch = λ w. (none, w.cluster);
  new_helper = λ w. ok tt;
  hash = λ identity. ok 7;
}

abbrev deleted : Here conditions (cached_services conditions cache rest)
deleted = record {
  obj = record {
    key = record { namespace = "ocm-system"; name = "app" };
    deleted = true;
    finalizers = snapshot_finalizer ∷ [];
    owners = [];
    identity = ("component-name", "app") ∷ [];
    digest = "sha256:1";
    tag = "v2.0.0";
    suspend = false;
    last_reconciled_digest = "";
    last_reconciled_tag = "";
    repository_url = "";
  };
  generation = 1;
  observed_generation = none;
  conditions = unknown;
  events = [];
  cluster = record { cluster = tt; cache = session };
}

reconcile_delete_snapshot-IsUncached_example :
    ((reconcile_delete_snapshot conditions (cached_services conditions cache rest) deleted).1.obj
      ≡ deleted.obj)
    ⊎ ((contains snapshot_finalizer
            (reconcile_delete_snapshot conditions
              (cached_services conditions cache rest)
              deleted).1.obj.finalizers
          ≡ false)
        × IsUncached conditions cache rest deleted)
reconcile_delete_snapshot-IsUncached_example =
    reconcile_delete_snapshot-IsUncached conditions cache rest (IsTag registry)
      (oci_cache-IsCache registry registry-laws) deleted

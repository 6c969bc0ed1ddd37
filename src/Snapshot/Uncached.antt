-- ===== src/Snapshot/Uncached.antt =====
-- The Snapshot controller over a cache, as main.go puts them together.
use ocm_controller.Prelude.{
  ℕ, String, ◌≡◌, ap, ◌⊎◌, inl, inr, true, false, ◌||◌, Option, none, some, arith, nat_eq,
}
use ocm_controller.Prelude.Outcome.{Result-cases, Error, Result, ok, err, as_transport}
use ocm_controller.Status.Runtime.{Runtime}
use ocm_controller.Status.World.{World}
use ocm_controller.Component.Names.{NamespacedName, Identity, construct_repository_name}
use ocm_controller.ComponentVersion.Services.{Stored}
use ocm_controller.Cache.Contract.{Cache, IsCache}
use ocm_controller.Snapshot.Types.{Snapshot}
use ocm_controller.Snapshot.Writer.{Store}
use ocm_controller.Snapshot.Delete.{
  SnapshotServices, Here, snapshot_finalizer, contains, data_gone, is_unknown_manifest_error,
  reconcile_delete_snapshot,
}
use ocm_controller.Snapshot.Deleted.{data_gone-IsGone, contains-remove_finalizer}

-- What the controller calls besides the cache.
pub record Rest (r : Runtime) : Type 1 where
  pub Cluster : Type 0
  pub get_object : Cluster → NamespacedName → Result (Stored r.Conditions Snapshot)
  pub patch : World r.Conditions Cluster Snapshot → Option Error × Cluster
  pub new_helper : World r.Conditions Cluster Snapshot → Result (Unit {0})
  pub hash : Identity → Result ℕ

module _ (r : Runtime) (c : Cache) (rest : Rest r) where
  abbrev pub Joined : Type 0
  Joined = Store rest.Cluster c.State

  -- the world without the cache
  abbrev pub clustered :
      World r.Conditions Joined Snapshot → World r.Conditions rest.Cluster Snapshot
  clustered w = record {
    obj = w.obj;
    generation = w.generation;
    observed_generation = w.observed_generation;
    conditions = w.conditions;
    events = w.events;
    cluster = w.cluster.cluster;
  }

  abbrev pub cached_services : SnapshotServices r
  cached_services = record {
    Cluster = Joined;
    get_object = λ h. rest.get_object h.cluster;
    patch = λ w.
        let (e, k) = rest.patch (clustered w) in
        (e, record { cluster = k; cache = w.cluster.cache });
    new_helper = λ w. rest.new_helper (clustered w);
    hash = rest.hash;
    delete_data = λ name tag h.
        let (x, k) = c.delete_data name tag h.cache in
        (x, record { cluster = h.cluster; cache = k });
  }

  -- The cache answered that it has no such data.
  abbrev pub HasNone : Result (Unit {0}) → Type 0
  HasNone x =
      (e : Error) × (x ≡ err e)
      × ((elim (as_transport e) [
        | none ↦ false
        | some (status, codes) ↦ nat_eq status 404 || is_unknown_manifest_error codes
      ])
          ≡ true)

  gone-IsUncached :
      (IsTag : String → Type 0)
      → IsCache c IsTag
      → (name tag : String) (k : c.State) → data_gone (c.delete_data name tag k).0 ≡ ok tt
      → ((c.is_cached name tag (c.delete_data name tag k).1).0 ≡ ok false)
        ⊎ HasNone (c.delete_data name tag k).0
  gone-IsUncached IsTag laws name tag k h = elim (data_gone-IsGone _ h) [
    | inl deleted ↦ inl (
        laws.is_cached-delete name tag k (c.delete_data name tag k).1
          (ap (λ x. (x, (c.delete_data name tag k).1)) deleted))
    | inr none_there ↦ inr none_there
  ]

  -- Nothing of a snapshot is left in the cache: its tag is not cached in the repository of its identity
  -- when the deletion ends, or the cache answered that it has no such data.
  abbrev pub IsUncached : Here r cached_services → Type 0
  IsUncached w =
      (name : String) × (construct_repository_name rest.hash w.obj.identity ≡ ok name)
      × (((c.is_cached name w.obj.tag
              (reconcile_delete_snapshot r cached_services w).1.cluster.cache).0
            ≡ ok false)
          ⊎ HasNone (c.delete_data name w.obj.tag w.cluster.cache).0)

  -- The deletion of a snapshot removes the finalizer only if nothing is left in the cache: its tag is
  -- not cached in the repository of its identity when the deletion ends, or the cache answered that it
  -- has no such data. Otherwise the snapshot is as it was, its finalizer included. The cache is one in
  -- the sense of `IsCache`.
  pub reconcile_delete_snapshot-IsUncached :
      (IsTag : String → Type 0)
      → IsCache c IsTag
      → (w : Here r cached_services)
      → ((reconcile_delete_snapshot r cached_services w).1.obj ≡ w.obj)
        ⊎ ((contains snapshot_finalizer
                (reconcile_delete_snapshot r cached_services w).1.obj.finalizers
              ≡ false)
            × IsUncached w)
  unfolding reconcile_delete_snapshot
  reconcile_delete_snapshot-IsUncached IsTag laws w =
      elim (Result-cases (construct_repository_name rest.hash w.obj.identity)) [
        | inr failed ↦ inl (ground arith)
        | inl (name, named) ↦
            elim (Result-cases (data_gone (c.delete_data name w.obj.tag w.cluster.cache).0)) [
              | inr failed ↦ inl (ground arith)
              | inl (u, gone) ↦ ground (
                arith,
                contains-remove_finalizer snapshot_finalizer w.obj.finalizers,
                gone-IsUncached IsTag laws name w.obj.tag w.cluster.cache gone,
              )
            ]
      ]

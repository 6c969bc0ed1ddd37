-- ===== src/Snapshot/Deleted.antt =====
-- A snapshot loses its finalizer only when its data is gone from the cache.
use ocm_controller.Prelude.{
  String, ◌≡◌, refl, ◌⊎◌, inl, inr, true, false, ◌||◌, List, [], ◌∷◌, some, none, arith, nat_eq,
}
use ocm_controller.Prelude.Outcome.{
  Result-cases, Result, ok, err, panic, out_of_fuel, as_transport, Error,
}
use ocm_controller.Status.Runtime.{Runtime}
use ocm_controller.Component.Names.{construct_repository_name}
use ocm_controller.Snapshot.Delete.{
  SnapshotServices, Here, snapshot_finalizer, contains, remove_finalizer, data_gone,
  is_unknown_manifest_error, reconcile_delete_snapshot,
}

pub contains-remove_finalizer :
    (f : String) (fs : List String) → contains f (remove_finalizer f fs) ≡ false
contains-remove_finalizer f [] = refl
contains-remove_finalizer f (g ∷ gs) = ground (arith, contains-remove_finalizer f gs)

-- The cache had no data, or it was told to delete it and did.
abbrev pub IsGone : Result (Unit {0}) → Type 0
IsGone x =
    (x ≡ ok tt)
    ⊎ ((e : Error) × (x ≡ err e)
        × ((elim (as_transport e) [
          | none ↦ false
          | some (status, codes) ↦ nat_eq status 404 || is_unknown_manifest_error codes
        ])
            ≡ true))

pub data_gone-IsGone : (x : Result (Unit {0})) → data_gone x ≡ ok tt → IsGone x
unfolding data_gone
data_gone-IsGone (ok tt) h = inl refl
data_gone-IsGone (err e) h = inr (e, refl, ground arith)
data_gone-IsGone panic h = cc
data_gone-IsGone out_of_fuel h = cc

module _ (r : Runtime) (s : SnapshotServices r) where
  open s use {hash, delete_data}

  -- The finalizer of a snapshot is removed only with the data: where the deletion succeeds, DeleteData
  -- was called for the repository and tag of the snapshot, its data is gone, and the finalizer too;
  -- anything else leaves the snapshot, its finalizer included, as it was, up to a failure of the
  -- last patch.
  pub reconcile_delete_snapshot-IsGone :
      (w : Here r s)
      → ((reconcile_delete_snapshot r s w).1.obj ≡ w.obj)
        ⊎ ((name : String) × (construct_repository_name hash w.obj.identity ≡ ok name)
            × IsGone (delete_data name w.obj.tag w.cluster).0
            × (contains snapshot_finalizer (reconcile_delete_snapshot r s w).1.obj.finalizers
                ≡ false))
  unfolding reconcile_delete_snapshot
  reconcile_delete_snapshot-IsGone w =
      elim (Result-cases (construct_repository_name hash w.obj.identity)) [
        | inr failed ↦ inl (ground arith)
        | inl (name, named) ↦
            elim (Result-cases (data_gone (delete_data name w.obj.tag w.cluster).0)) [
              | inr failed ↦ inl (ground arith)
              | inl (u, gone) ↦ ground (
                arith,
                contains-remove_finalizer snapshot_finalizer w.obj.finalizers,
                data_gone-IsGone _ gone,
              )
            ]
      ]

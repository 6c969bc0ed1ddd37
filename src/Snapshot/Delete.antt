-- ===== src/Snapshot/Delete.antt =====
-- reconcileDeleteSnapshot of controllers/snapshot_controller.go, and the finalizer that asks for it.
use ocm_controller.Prelude.{
  ℕ, String, Bool, false, not, ◌&&◌, ◌||◌, Option, none, some, List, [], ◌∷◌, if◌then◌else◌, nat_eq,
  str_eq,
}
use ocm_controller.Prelude.Outcome.{Error, Result, ok, err, wrap, context, as_transport, Op, ◌>>=◌}
use ocm_controller.Status.Runtime.{Runtime}
use ocm_controller.Status.World.{World}
use ocm_controller.Component.Names.{NamespacedName, Identity, construct_repository_name}
use ocm_controller.ComponentVersion.Services.{Stored}
use ocm_controller.Snapshot.Types.{Snapshot}

pub record SnapshotServices (r : Runtime) : Type 1 where
  -- the state of the cluster and of the OCI cache
  pub Cluster : Type 0
  pub get_object : Cluster → NamespacedName → Result (Stored r.Conditions Snapshot)
  -- Patch of the serial patcher, and of the helper that the deletion makes
  pub patch : World r.Conditions Cluster Snapshot → Option Error × Cluster
  pub new_helper : World r.Conditions Cluster Snapshot → Result (Unit {0})
  pub hash : Identity → Result ℕ
  -- Cache.DeleteData
  pub delete_data : String → String → Op Cluster (Unit {0})

abbrev pub snapshot_finalizer : String
snapshot_finalizer = "finalizers.snapshot.ocm.software"

-- controllerutil.ContainsFinalizer, AddFinalizer and RemoveFinalizer
abbrev pub contains : String → List String → Bool
contains f [] = false
contains f (g ∷ gs) = str_eq g f || contains f gs

abbrev pub append : String → List String → List String
append f [] = f ∷ []
append f (g ∷ gs) = g ∷ append f gs

abbrev pub add_finalizer : String → List String → List String
add_finalizer f fs = if contains f fs then fs else append f fs

abbrev pub remove_finalizer : String → List String → List String
remove_finalizer f [] = []
remove_finalizer f (g ∷ gs) =
    let rest = remove_finalizer f gs in if str_eq g f then rest else g ∷ rest

-- isUnknownManifestError: transport.ManifestUnknownErrorCode is "MANIFEST_UNKNOWN"
unfoldable pub is_unknown_manifest_error : List String → Bool
is_unknown_manifest_error [] = false
is_unknown_manifest_error (code ∷ codes) =
    str_eq code "MANIFEST_UNKNOWN" || is_unknown_manifest_error codes

-- The answer of DeleteData, with which the deletion goes on if there was no data.
unfoldable pub data_gone : Result (Unit {0}) → Result (Unit {0})
unfolding is_unknown_manifest_error
data_gone (err e) = elim (as_transport e) [
  | none ↦ err (wrap "failure was not a transport error during data deletion" e)
  | some (status, codes) ↦
      if not (nat_eq status 404) && not (is_unknown_manifest_error codes)
      then err (wrap "failed to delete data" e)
      else ok tt
]
data_gone other = other

module _ (r : Runtime) (s : SnapshotServices r) where
  open s use {Cluster, get_object, patch, new_helper, hash, delete_data}

  abbrev pub Here : Type 0
  Here = World r.Conditions Cluster Snapshot

  abbrev pub named : Here → Result String
  named w = context "failed to construct name" (construct_repository_name hash w.obj.identity)

  abbrev pub delete_cached : String → Op Here (Unit {0})
  delete_cached name w =
      let (x, k) = delete_data name w.obj.tag w.cluster in (data_gone x, record w { cluster = k })

  abbrev pub without_finalizer : Here → Here
  without_finalizer w = record w {
    obj = record (w.obj) { finalizers = remove_finalizer snapshot_finalizer w.obj.finalizers };
  }

  abbrev pub patched : Op Here (Unit {0})
  patched w =
      let (e, k) = patch w in (elim e [ none ↦ ok tt | some e' ↦ err e' ], record w { cluster = k })

  unfoldable pub reconcile_delete_snapshot : Op Here (Unit {0})
  reconcile_delete_snapshot = do
    helper ← λ w. (context "failed to reconcile delete" (new_helper w), w)
    name ← λ w. (named w, w)
    gone ← delete_cached name
    removed ← λ w. (ok tt, without_finalizer w)
    patched

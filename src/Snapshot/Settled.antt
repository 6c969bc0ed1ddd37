-- ===== src/Snapshot/Settled.antt =====
-- How the reconciliation of a snapshot ends.
use ocm_controller.Prelude.{String, Bool, if◌then◌else◌, true, false, Option, none, ◌≡◌, ◌⊎◌}
use ocm_controller.Prelude.Outcome.{Error}
use ocm_controller.Status.Runtime.{Runtime, RuntimeLaws}
use ocm_controller.Status.World.{Exit, Requeue, return, deferred}
use ocm_controller.Status.Exits.{Exits, Settled, exit_rules, fail-Settled, succeed-Settled}
use ocm_controller.Status.Deferred.{Concluded, deferred-Concluded, unless_idle}
use ocm_controller.Status.Mark.{update_status}
use ocm_controller.Snapshot.Types.{get_vid}
use ocm_controller.Snapshot.Delete.{SnapshotServices, Here}
use ocm_controller.Snapshot.Controller.{reconcile_snapshot, with_finalizer, reconcile_object}

module _ (r : Runtime) (laws : RuntimeLaws r) (s : SnapshotServices r) (registry : String) where
  reconcile_snapshot-Settled : Exits (Settled r) (reconcile_snapshot r s registry)
  unfolding reconcile_snapshot
  reconcile_snapshot-Settled =
      search (exit_rules, fail-Settled r laws, succeed-Settled r laws) depth 20

  finalized-Concluded : Exits (Concluded r s.patch) (λ w.
      deferred
        (update_status r (λ w'. get_vid w'.obj) s.patch)
        (reconcile_snapshot r s registry)
        (with_finalizer r s registry w))
  finalized-Concluded = record {
    at = λ w.
        (deferred-Concluded r (λ w'. get_vid w'.obj) s.patch laws _ reconcile_snapshot-Settled).at
          (with_finalizer r s registry w);
  }

  -- how a snapshot that is not being deleted ends
  abbrev Verdict : Here r s → Requeue → Option Error → Here r s → Type 0
  Verdict w q e w' = ((w.obj.suspend ≡ true) × (e ≡ none) × (w' ≡ w)) ⊎ Concluded r s.patch q e w'

  -- the branch that is taken where a test fails
  past_test :
      (C : Here r s → Type 0) (b : Bool) (x y : Exit (Unit {0}) × Here r s) {q : Requeue}
      {e : Option Error}
      → b ≡ false
      → (y.0 ≡ return q e → C y.1)
      → (if b then x else y).0 ≡ return q e
      → C (if b then x else y).1
  past_test C true x y kept k h = cc
  past_test C false x y kept k h = k h

  -- Each return of Reconcile for a snapshot that was read and is not being deleted: it is suspended,
  -- and as it was, without an error; or it was patched last, the Reconciling condition is gone, and
  -- Ready is True or False. Where Ready is True, an error that is returned is that of the patch.
  pub snapshot_object-Concluded :
      (w : Here r s) (q : Requeue) (e : Option Error)
      → w.obj.deleted ≡ false
      → (reconcile_object r s registry w).0 ≡ return q e
      → ((w.obj.suspend ≡ true) × (e ≡ none) × ((reconcile_object r s registry w).1 ≡ w))
        ⊎ Concluded r s.patch q e (reconcile_object r s registry w).1
  unfolding reconcile_object
  snapshot_object-Concluded w q e kept h =
      past_test (Verdict w q e) w.obj.deleted _ _ kept
        (unless_idle w.obj.suspend _ finalized-Concluded w q e) h

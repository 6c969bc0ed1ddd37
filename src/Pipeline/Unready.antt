-- ===== src/Pipeline/Unready.antt =====
-- What a pipeline is marked as when its component version is not there or not ready.
use ocm_controller.Prelude.{
  ◌≡◌, ◌≢◌, refl, ◌∙◌, ◌⊎◌, inl, inr, true, false, Option, none, some, Bool, ◌||◌, if_true,
  if_false, arith, eq_iff, ap, Bool-cases,
}
use ocm_controller.Prelude.Outcome.{Error, ok, err, is_not_found, is_cv_not_ready}
use ocm_controller.Status.Runtime.{Runtime, RuntimeLaws, ready, reconciling, stalled, holds}
use ocm_controller.Status.World.{Exit, return, requeue_after}
use ocm_controller.Status.Finish.{requeue}
use ocm_controller.Status.Mark.{progressing, succeeded}
use ocm_controller.ComponentVersion.Types.{ComponentVersion}
use ocm_controller.ComponentVersion.Services.{Stored}
use ocm_controller.Pipeline.Types.{PipelineServices}
use ocm_controller.Pipeline.Controller.{
  Here, source_key, reconcile_pipeline, reconcile, get_component_version_access,
}
use ocm_controller.Pipeline.Finish.{finish, finished, reconcile_object}

module _ (r : Runtime) (laws : RuntimeLaws r) (s : PipelineServices r) where
  or-true : (a b : Bool) → b ≡ true → (a || b) ≡ true
  or-true true b h = refl
  or-true false b h = h

  not_stalled_lem : (c : r.Conditions) → r.get c stalled ≡ none → r.is_stalled c ≡ false
  not_stalled_lem c h = elim (Bool-cases (r.is_stalled c)) [
    | inr no' ↦ no'
    | inl is ↦ absurd (ground (arith, laws.stalled_sound c is))
  ]

  -- the conditions that a run leaves that returns no error, without a Ready condition and not stalled
  abbrev marked : Here r s → r.Conditions
  marked w = r.mark_true (r.delete w.conditions reconciling) ready succeeded

  finish-marked :
      (w : Here r s)
      → r.get w.conditions ready ≡ none
      → r.get w.conditions stalled ≡ none
      → (finish r s none w).1.conditions ≡ marked w
  unfolding finish
  finish-marked w h i =
      let c = r.delete w.conditions reconciling in
      let no_ready : r.get c ready ≡ none = laws.get-delete _ reconciling ready ∙ h in
      let no_stalled : r.get c stalled ≡ none = laws.get-delete _ reconciling stalled ∙ i in
      let not_reconciling : r.is_reconciling c ≡ false =
        laws.is_reconciling_lem c ∙ ap holds (laws.get-delete _ reconciling reconciling) in
      let not_stalled : r.is_stalled c ≡ false = not_stalled_lem c no_stalled in
      ground (arith, i, no_ready, not_reconciling, not_stalled)

  ready-marked : (w : Here r s) → holds (r.get (marked w) ready) ≡ true
  ready-marked w = ap holds (laws.get-mark_true _ ready ready succeeded)

  reconciling-marked : (w : Here r s) → r.get (marked w) reconciling ≡ none
  reconciling-marked w =
      laws.get-mark_true _ ready reconciling succeeded ∙ laws.get-delete _ reconciling reconciling

  -- An object that is ready in the end has its generation observed.
  observed-finish :
      (w : Here r s)
      → r.is_ready (finish r s none w).1.conditions ≡ true
      → (finish r s none w).1.observed_generation ≡ some w.generation
  unfolding finish
  observed-finish w h = if_true (r.is_stalled _ || r.is_ready _) _ _ (or-true _ _ h)

  -- Such a run observes the generation.
  finish-observed :
      (w : Here r s)
      → r.get w.conditions ready ≡ none
      → r.get w.conditions stalled ≡ none
      → (finish r s none w).1.observed_generation ≡ some w.generation
  finish-observed w h i =
      let still : r.get (marked w) stalled ≡ none =
        laws.get-mark_true _ ready stalled succeeded ∙ laws.get-delete _ reconciling stalled ∙ i in
      observed-finish w (
        ap r.is_ready (finish-marked w h i)
        ∙ laws.ready_complete (marked w) (ready-marked w) (reconciling-marked w) still)

  digest-finish : (e : Option Error) (w : Here r s) → (finish r s e w).1.obj ≡ w.obj
  unfolding finish
  digest-finish e w = refl

  -- The component version cannot be found, or it is not ready.
  abbrev pub IsUnready : Here r s → Type 0
  IsUnready w =
      ((e : Error) × (s.get_component_version_object w.cluster (source_key r s w) ≡ err e)
        × (is_not_found e ≡ true))
      ⊎ ((cv : Stored r.Conditions ComponentVersion) × (s.get_component_version_object w.cluster
              (source_key r s w)
            ≡ ok cv)
          × (r.is_ready cv.conditions ≡ false))

  -- the world that the run leaves: only conditions change
  abbrev started : Here r s → Here r s
  started w = record w {
    conditions = r.mark_true (r.delete w.conditions ready) reconciling progressing;
  }

  unready_run :
      (w : Here r s)
      → w.obj.snapshot_name ≢ ""
      → IsUnready w
      → reconcile_pipeline r s w ≡ (return (requeue_after w.obj.interval) none, started w)
  unfolding reconcile_pipeline reconcile get_component_version_access requeue is_cv_not_ready
  unready_run w named (inl (e, missing, h)) = ground (arith, eq_iff w.obj.snapshot_name "")
  unready_run w named (inr (cv, found, h)) = ground (arith, eq_iff w.obj.snapshot_name "")

  -- A pipeline that is not suspended or stalled, that has a name for its snapshot, and whose component
  -- version is not there or not ready, is marked as Ready by the deferred function, with nothing in
  -- progress and its generation observed, although it did not run: its spec and the rest of its status
  -- are as they were, the snapshot digest included.
  pub reconcile_object-unready :
      (w : Here r s)
      → w.obj.suspend ≡ false
      → w.obj.snapshot_name ≢ ""
      → r.get w.conditions stalled ≡ none
      → IsUnready w
      → (holds (r.get (reconcile_object r s w).1.conditions ready) ≡ true)
        × (r.get (reconcile_object r s w).1.conditions reconciling ≡ none)
        × ((reconcile_object r s w).1.observed_generation ≡ some w.generation)
        × ((reconcile_object r s w).1.obj ≡ w.obj)
  unfolding reconcile_object
  reconcile_object-unready w running named no_stall unready =
      let run = unready_run w named unready in
      let no_ready : r.get (started w).conditions ready ≡ none =
        laws.get-mark_true _ reconciling ready _ ∙ laws.get-delete _ ready ready in
      let no_stall' : r.get (started w).conditions stalled ≡ none =
        laws.get-mark_true _ reconciling stalled _ ∙ laws.get-delete _ ready stalled ∙ no_stall in
      let w' = started w in
      let conditions = finish-marked w' no_ready no_stall' in
      let left : (reconcile_object r s w).1 ≡ (finish r s none w').1 =
        ap (λ (y : Exit (Unit {0}) × Here r s). y.1) (if_false w.obj.suspend _ _ running)
        ∙ ap (λ (y : Exit (Unit {0}) × Here r s). (finished r s y.0 y.1).1) run in
      (
        ap (λ (v : Here r s). holds (r.get v.conditions ready)) left
            ∙ ap (λ c. holds (r.get c ready)) conditions
            ∙ ready-marked w',
        ap (λ (v : Here r s). r.get v.conditions reconciling) left
            ∙ ap (λ c. r.get c reconciling) conditions
            ∙ reconciling-marked w',
        ap (λ (v : Here r s). v.observed_generation) left ∙ finish-observed w' no_ready no_stall',
        ap (λ (v : Here r s). v.obj) left ∙ digest-finish none w',
      )

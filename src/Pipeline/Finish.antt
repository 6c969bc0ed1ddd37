-- ===== src/Pipeline/Finish.antt =====
-- The deferred function of Reconcile of controllers/resourcepipeline_controller.go, and Reconcile.
use ocm_controller.Prelude.{
  Bool, true, false, not, ◌&&◌, ◌||◌, Option, none, some, [], if◌then◌else◌,
}
use ocm_controller.Prelude.Outcome.{Error, plain, join_errors}
use ocm_controller.Status.Runtime.{Runtime, ready, reconciling, stalled, holds, fails}
use ocm_controller.Status.World.{request, Exit, next, return, panics, unfinished, requeue_after}
use ocm_controller.Status.Mark.{progressing_with_retry, succeeded}
use ocm_controller.Component.Names.{NamespacedName}
use ocm_controller.ComponentVersion.Services.{Stored}
use ocm_controller.Pipeline.Types.{ResourcePipeline, PipelineServices}
use ocm_controller.Pipeline.Controller.{Here, reconcile_pipeline}

abbrev pub is_none : Option Error → Bool
is_none none = true
is_none (some e) = false

module _ (r : Runtime) (s : PipelineServices r) where
  open s use {Cluster, get_object, patch}

  -- the conditions that each block of the deferred function leaves
  abbrev pub unstall : r.Conditions → r.Conditions
  unstall c = if holds (r.get c stalled) then r.delete c reconciling else c

  abbrev pub drop_reconciling : Option Error → r.Conditions → r.Conditions
  drop_reconciling e c = if is_none e then r.delete c reconciling else c

  -- The error is the message of the Ready condition, which is not modelled.
  abbrev pub ready_error : Option Error → r.Conditions → Option Error
  ready_error e c =
      if is_none e && (fails (r.get c ready) && not (r.is_stalled c)) then some (plain "") else e

  abbrev pub retry : r.Conditions → r.Conditions
  retry c =
      if r.is_reconciling c
      then elim (r.get c reconciling) [
        | none ↦ c
        | some old ↦ r.set c reconciling (record old { reason = progressing_with_retry })
      ]
      else c

  abbrev pub mark_success : Option Error → r.Conditions → r.Conditions
  mark_success e c =
      if not (r.is_reconciling c) && (not (r.is_stalled c) && is_none e)
      then r.mark_true c ready succeeded
      else c

  -- The deferred function, for the error that is to be returned.
  unfoldable pub finish : Option Error → Here r s → Option Error × Here r s
  finish e w =
      let c = drop_reconciling e (unstall w.conditions) in
      let e' = ready_error e c in
      let c' = mark_success e' (retry c) in
      let w' = record w {
        conditions = c';
        observed_generation =
            if r.is_stalled c' || r.is_ready c' then some w.generation else w.observed_generation;
      } in
      let (perr, k) = patch w' in (join_errors e' perr, record w' { cluster = k })

  -- It runs on each way out; no error is set on a panic.
  abbrev pub finished : Exit (Unit {0}) → Here r s → Exit (Unit {0}) × Here r s
  finished (return q e) w = let (e', w') = finish e w in (return q e', w')
  finished panics w = (panics, (finish none w).1)
  finished (next a) w = (next a, (finish none w).1)
  finished unfinished w = (unfinished, w)

  unfoldable pub reconcile_object : Here r s → Exit (Unit {0}) × Here r s
  reconcile_object w =
      let (x, w') = reconcile_pipeline r s w in
      if w.obj.suspend then (return (requeue_after w.obj.interval) none, w) else finished x w'

  abbrev pub load : Stored r.Conditions ResourcePipeline → Cluster → Here r s
  load o k = record {
    obj = o.obj;
    generation = o.generation;
    observed_generation = o.observed_generation;
    conditions = o.conditions;
    events = [];
    cluster = k;
  }

  -- Reconcile: how it ends, and the world that it leaves if the object was there.
  unfoldable pub reconcile_request : NamespacedName → Cluster → Exit (Unit {0}) × Option (Here r s)
  reconcile_request key k =
      request "failed to get resource pipeline" (get_object k key) (λ o. load o k) reconcile_object

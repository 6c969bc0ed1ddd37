-- ===== src/Status/Finish.antt =====
-- The ways in which a reconcile function returns after a marker of pkg/status.
use ocm_controller.Prelude.{String, Option, none, some}
use ocm_controller.Prelude.Outcome.{Error, wrap}
use ocm_controller.Status.Runtime.{Runtime}
use ocm_controller.Status.World.{World, return, Requeue, no_requeue, Act}
use ocm_controller.Status.Mark.{mark_not_ready, mark_as_stalled, mark_ready}

module _ (r : Runtime) {K O A : Type 0} where
  -- status.MarkNotReady, and a return of the result and error
  unfoldable pub fail_with :
      String → (World r.Conditions K O → Requeue) → Option Error → Act (World r.Conditions K O) A
  fail_with reason q e w = (return (q w) e, mark_not_ready r reason w)

  -- status.MarkAsStalled, and a return of the zero result and no error
  unfoldable pub stall : String → Act (World r.Conditions K O) A
  stall reason w = (return no_requeue none, mark_as_stalled r reason w)

  -- status.MarkReady, and a return of the result
  unfoldable pub succeed : (World r.Conditions K O → Requeue) → Act (World r.Conditions K O) A
  succeed q w = (return (q w) none, mark_ready r w)

-- a return of the result with no error, and no marker
unfoldable pub requeue : {C K O A : Type 0} → (World C K O → Requeue) → Act (World C K O) A
requeue q w = (return (q w) none, w)

module _ (r : Runtime) {K O A : Type 0} where
  -- `err = fmt.Errorf("msg: %w", err)`, MarkNotReady with the reason, and a return of that error
  unfoldable pub fail : String → String → Error → Act (World r.Conditions K O) A
  unfolding fail_with
  fail reason msg e = fail_with r reason (λ _. no_requeue) (some (wrap msg e))

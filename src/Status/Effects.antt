-- ===== src/Status/Effects.antt =====
-- What the markers and the final update do to an object, seen through `get` and `is_ready`.
use ocm_controller.Prelude.{
  String, ◌≡◌, true, none, some, Option, List, String, arith, Bool-cases, Option-cases, inl, inr,
}
use ocm_controller.Prelude.Outcome.{Error}
use ocm_controller.Status.Runtime.{
  Runtime, RuntimeLaws, ready, reconciling, stalled, holds, status_false,
}
use ocm_controller.Status.World.{World}
use ocm_controller.Status.Mark.{
  mark_not_ready, mark_as_stalled, mark_ready, mark_retrying, new_event, progress, update_status,
  observe_generation,
}

module _ (r : Runtime) (laws : RuntimeLaws r) {K O : Type 0} where
  pub ready-mark_not_ready :
      (why : String) (w : World r.Conditions K O)
      → r.get (mark_not_ready r why w).conditions ready
        ≡ some (record { status = status_false; reason = why })
  unfolding mark_not_ready new_event
  ready-mark_not_ready why w = simp (laws.get-mark_false)

  pub reconciling-mark_not_ready :
      (why : String) (w : World r.Conditions K O)
      → r.get (mark_not_ready r why w).conditions reconciling ≡ none
  unfolding mark_not_ready new_event
  reconciling-mark_not_ready why w = simp (laws.get-mark_false, laws.get-delete)

  pub ready-mark_as_stalled :
      (why : String) (w : World r.Conditions K O)
      → r.get (mark_as_stalled r why w).conditions ready
        ≡ some (record { status = status_false; reason = why })
  unfolding mark_as_stalled new_event
  ready-mark_as_stalled why w = simp (laws.ready-mark_stalled, laws.get-mark_false)

  pub reconciling-mark_as_stalled :
      (why : String) (w : World r.Conditions K O)
      → r.get (mark_as_stalled r why w).conditions reconciling ≡ none
  unfolding mark_as_stalled new_event
  reconciling-mark_as_stalled why w = simp (laws.reconciling-mark_stalled)

  pub ready-mark_ready :
      (w : World r.Conditions K O) → holds (r.get (mark_ready r w).conditions ready) ≡ true
  unfolding mark_ready new_event
  ready-mark_ready w = simp (laws.get-delete, laws.get-mark_true)

  pub reconciling-mark_ready :
      (w : World r.Conditions K O) → r.get (mark_ready r w).conditions reconciling ≡ none
  unfolding mark_ready new_event
  reconciling-mark_ready w = simp (laws.get-delete)

  pub stalled-mark_ready :
      (w : World r.Conditions K O)
      → r.get (mark_ready r w).conditions stalled ≡ r.get w.conditions stalled
  unfolding mark_ready new_event
  stalled-mark_ready w = simp (laws.get-delete, laws.get-mark_true)

  pub reconciling-progress :
      (w : World r.Conditions K O) → holds (r.get (progress r w).conditions reconciling) ≡ true
  unfolding progress
  reconciling-progress w = simp (laws.reconciling-progressive)

  pub stalled-progress :
      (w : World r.Conditions K O) → r.get (progress r w).conditions stalled ≡ none
  unfolding progress
  stalled-progress w = simp (laws.stalled-progressive)

-- What `mark_retrying` leaves alone.
module _ (r : Runtime) {K O : Type 0} where
  pub keeps-mark_retrying :
      (vid : List (String × String)) (w : World r.Conditions K O)
      → ((mark_retrying r vid w).obj ≡ w.obj)
        × ((mark_retrying r vid w).generation ≡ w.generation)
        × ((mark_retrying r vid w).observed_generation ≡ w.observed_generation)
        × ((mark_retrying r vid w).cluster ≡ w.cluster)
  unfolding mark_retrying new_event
  keeps-mark_retrying vid w = ground arith

-- The update at the end changes no field of the object but its conditions and generation.
module _ (r : Runtime) {K O : Type 0} (vid : World r.Conditions K O → List (String × String)) where
  pub keeps-update_status :
      (patch : World r.Conditions K O → Option Error × K) (w : World r.Conditions K O)
      → ((update_status r vid patch w).1.obj ≡ w.obj)
        × ((update_status r vid patch w).1.generation ≡ w.generation)
  unfolding update_status observe_generation new_event
  keeps-update_status patch w = ground (arith, keeps-mark_retrying r (vid w) w)

module _ (r : Runtime) (laws : RuntimeLaws r) {K O : Type 0} where
  pub ready-mark_retrying :
      (vid : List (String × String)) (w : World r.Conditions K O)
      → r.get (mark_retrying r vid w).conditions ready ≡ r.get w.conditions ready
  unfolding mark_retrying new_event
  ready-mark_retrying vid w = elim (Bool-cases (r.is_reconciling w.conditions)) [
    | inl e ↦ elim (Option-cases (r.get w.conditions reconciling)) [
      | inl n ↦ rw (e, n)
      | inr (c, s) ↦ rw (e, s) (laws.get-set _ _ _ _)
    ]
    | inr e ↦ rw e
  ]

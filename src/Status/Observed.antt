-- ===== src/Status/Observed.antt =====
-- What the update that ends each reconciliation says of its object.
use ocm_controller.Prelude.{
  String, Option, none, some, List, ◌≡◌, arith, if◌then◌else◌, Bool-cases, Option-cases, refl, inl,
  inr,
}
use ocm_controller.Prelude.Outcome.{Error}
use ocm_controller.Status.Runtime.{Runtime, RuntimeLaws, Condition, reconciling}
use ocm_controller.Status.World.{World}
use ocm_controller.Status.Mark.{
  mark_retrying, new_event, observe_generation, update_status, progressing_with_retry,
}
use ocm_controller.Status.Effects.{keeps-mark_retrying}

-- the condition with the reason of a retry
abbrev pub retrying : Option Condition → Option Condition
retrying none = none
retrying (some c) = some (record c { reason = progressing_with_retry })

module _ (r : Runtime) (laws : RuntimeLaws r) {K O : Type 0} where
  reconciling-mark_retrying :
      (vid : List (String × String)) (w : World r.Conditions K O)
      → r.get (mark_retrying r vid w).conditions reconciling ≡ (
          if r.is_reconciling w.conditions
          then retrying (r.get w.conditions reconciling)
          else r.get w.conditions reconciling)
  unfolding mark_retrying new_event
  reconciling-mark_retrying vid w = elim (Bool-cases (r.is_reconciling w.conditions)) [
    | inl e ↦ elim (Option-cases (r.get w.conditions reconciling)) [
      | inl n ↦ rw (e, n) n
      | inr (c, s) ↦ rw (e, s) (laws.get-set _ _ _ _)
    ]
    | inr e ↦ rw e refl
  ]

  -- After the update the observed generation is the generation of the object if the object is ready,
  -- and as it was if not; a Reconciling condition that is still there says that there is a retry.
  pub update_status-observed :
      (vid : World r.Conditions K O → List (String × String))
      (patch : World r.Conditions K O → Option Error × K) (w : World r.Conditions K O)
      → ((update_status r vid patch w).1.observed_generation ≡ (
          if r.is_ready (update_status r vid patch w).1.conditions
          then some w.generation
          else w.observed_generation))
        × (r.get (update_status r vid patch w).1.conditions reconciling ≡ (
            if r.is_reconciling w.conditions
            then retrying (r.get w.conditions reconciling)
            else r.get w.conditions reconciling))
  unfolding update_status observe_generation new_event
  update_status-observed vid patch w =
      ground (arith, keeps-mark_retrying r (vid w) w, reconciling-mark_retrying (vid w) w)

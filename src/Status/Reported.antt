-- ===== src/Status/Reported.antt =====
-- An error that a reconcile function returns is reported on the object.
use ocm_controller.Prelude.{◌≡◌, ◌⊎◌, inl, inr, true, Option, none, String, arith}
use ocm_controller.Prelude.Outcome.{Error}
use ocm_controller.Status.Runtime.{Runtime, RuntimeLaws, ready, reconciling, fails}
use ocm_controller.Status.World.{World, Requeue}
use ocm_controller.Status.Finish.{fail_with, stall, succeed, fail, requeue}
use ocm_controller.Status.Exits.{
  Exits, Settled, fail_with-Settled, stall-Settled, succeed-Settled, fail-Settled,
}

-- There is no error, or Ready is False and nothing is marked as in progress.
abbrev pub Reported :
    (r : Runtime) {K O : Type 0} → Requeue → Option Error → World r.Conditions K O → Type 0
Reported r q e w =
    (e ≡ none)
    ⊎ ((fails (r.get w.conditions ready) ≡ true) × (r.get w.conditions reconciling ≡ none))

module _ (r : Runtime) {K O : Type 0} where
  Settled-Reported :
      (q : Requeue) (e : Option Error) (w : World r.Conditions K O)
      → Settled r q e w
      → Reported r q e w
  Settled-Reported q e w h = elim h.verdict [
    | inl (is_ready, no_error) ↦ inl no_error
    | inr failed ↦ inr (failed, h.not_reconciling)
  ]

module _ (r : Runtime) (laws : RuntimeLaws r) {K O A : Type 0} where
  pub fail_with-Reported :
      (reason : String) (q : World r.Conditions K O → Requeue) (e : Option Error)
      → Exits (Reported r) (fail_with r {A = A} reason q e)
  fail_with-Reported reason q e = record {
    at = λ w q' e' h.
        Settled-Reported r q' e' _ ((fail_with-Settled r laws reason q e).at w q' e' h);
  }

  pub stall-Reported :
      (reason : String) → Exits (Reported r) (stall r {K = K} {O = O} {A = A} reason)
  stall-Reported reason = record {
    at = λ w q e h. Settled-Reported r q e _ ((stall-Settled r laws reason).at w q e h);
  }

  pub succeed-Reported :
      (q : World r.Conditions K O → Requeue) → Exits (Reported r) (succeed r {A = A} q)
  succeed-Reported q = record {
    at = λ w q' e h. Settled-Reported r q' e _ ((succeed-Settled r laws q).at w q' e h);
  }

  pub fail-Reported :
      (reason msg : String) (e : Error)
      → Exits (Reported r) (fail r {K = K} {O = O} {A = A} reason msg e)
  fail-Reported reason msg e = record {
    at = λ w q e' h. Settled-Reported r q e' _ ((fail-Settled r laws reason msg e).at w q e' h);
  }

  pub requeue-Reported :
      (q : World r.Conditions K O → Requeue)
      → Exits (Reported r) (requeue {C = r.Conditions} {K = K} {O = O} {A = A} q)
  unfolding requeue
  requeue-Reported q = record { at = λ w q' e h. inl (ground arith) }

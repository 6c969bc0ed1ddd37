-- ===== src/Status/Mark.antt =====
-- pkg/event/event.go, and mutate_condition_status.go and register_status_defer.go of pkg/status.
use ocm_controller.Prelude.{
  String, Bool, true, false, Option, none, some, List, [], ◌∷◌, if◌then◌else◌, str_eq,
}
use ocm_controller.Prelude.Outcome.{Error}
use ocm_controller.Status.Runtime.{Runtime, ready, reconciling}
use ocm_controller.Status.World.{World}

-- eventv1.EventSeverityInfo and eventv1.EventSeverityError
pub data Severity : Type 0 where
  info error : Severity

abbrev pub severity_text : Severity → String
severity_text info = "info"
severity_text error = "error"

abbrev pub is_error : Severity → Bool
is_error info = false
is_error error = true

-- meta.SucceededReason and meta.ProgressingWithRetryReason
abbrev pub succeeded : String
succeeded = "Succeeded"

abbrev pub progressing_with_retry : String
progressing_with_retry = "ProgressingWithRetry"

-- meta.ProgressingReason
abbrev pub progressing : String
progressing = "Progressing"

module _ (r : Runtime) {K O : Type 0} where
  -- New of pkg/event
  unfoldable pub new_event :
      Severity → List (String × String) → World r.Conditions K O → World r.Conditions K O
  new_event severity metadata w =
      let why = r.get_reason w.conditions ready in
      let reason = if str_eq why "" then severity_text severity else why in
      record w {
        events =
            (record { warning = is_error severity; reason = reason; metadata = metadata })
            ∷ w.events;
      }

  unfoldable pub mark_not_ready : String → World r.Conditions K O → World r.Conditions K O
  mark_not_ready reason w =
      new_event error []
        (record w { conditions = r.mark_false (r.delete w.conditions reconciling) ready reason })

  unfoldable pub mark_as_stalled : String → World r.Conditions K O → World r.Conditions K O
  mark_as_stalled reason w = new_event error [] (record w {
    conditions =
        r.mark_stalled (r.mark_false (r.delete w.conditions reconciling) ready reason) reason;
  })

  unfoldable pub mark_ready : World r.Conditions K O → World r.Conditions K O
  mark_ready w =
      new_event info []
        (record w { conditions = r.delete (r.mark_true w.conditions ready succeeded) reconciling })

  -- rreconcile.ProgressiveStatus(false, obj, meta.ProgressingReason, ...)
  unfoldable pub progress : World r.Conditions K O → World r.Conditions K O
  progress w = record w { conditions = r.progressive_status w.conditions progressing }

  -- the first block of UpdateStatus: `reconciling` is a pointer to the condition that is there
  unfoldable pub mark_retrying :
      List (String × String) → World r.Conditions K O → World r.Conditions K O
  mark_retrying vid w =
      if r.is_reconciling w.conditions
      then elim (r.get w.conditions reconciling) [
        | none ↦ w
        | some c ↦ new_event error vid (record w {
          conditions =
              r.set w.conditions reconciling (record c { reason = progressing_with_retry });
        })
      ]
      else w

  -- the second block of UpdateStatus
  unfoldable pub observe_generation :
      List (String × String) → World r.Conditions K O → World r.Conditions K O
  observe_generation vid w =
      if r.is_ready w.conditions
      then new_event info vid (record w { observed_generation = some w.generation })
      else w

  -- UpdateStatus. `vid` is GetVID of the object, and `patch` the SerialPatcher's Patch, which writes
  -- the object to the cluster.
  unfoldable pub update_status :
      (World r.Conditions K O → List (String × String))
      → (World r.Conditions K O → Option Error × K)
      → World r.Conditions K O
      → Option Error × World r.Conditions K O
  update_status vid patch w =
      let w₁ = mark_retrying (vid w) w in
      let w₂ = observe_generation (vid w₁) w₁ in
      let (e, k) = patch w₂ in (e, record w₂ { cluster = k })

-- ===== src/Status/Runtime.antt =====
-- The part of github.com/fluxcd/pkg/runtime that the controllers call, as a parameter.
use ocm_controller.Prelude.{String, Bool, true, false, Option, none, some, ◌≡◌, if◌then◌else◌}

-- meta.ReadyCondition, meta.ReconcilingCondition and meta.StalledCondition
pub data CondType : Type 0 where
  ready reconciling stalled : CondType

pub data CondStatus : Type 0 where
  status_true status_false status_unknown : CondStatus

-- metav1.Condition, less its message and times
pub record Condition : Type 0 where
  pub status : CondStatus
  pub reason : String

abbrev pub same_type : CondType → CondType → Bool
same_type ready ready = true
same_type reconciling reconciling = true
same_type stalled stalled = true
same_type _ _ = false

abbrev pub holds : Option Condition → Bool
holds none = false
holds (some c) = elim c.status [ status_true ↦ true | _ ↦ false ]

abbrev pub fails : Option Condition → Bool
fails none = false
fails (some c) = elim c.status [ status_false ↦ true | _ ↦ false ]

abbrev pub reason_of : Option Condition → String
reason_of none = ""
reason_of (some c) = c.reason

pub record Runtime : Type 1 where
  -- status.conditions of an object
  pub Conditions : Type 0
  pub get : Conditions → CondType → Option Condition
  pub set : Conditions → CondType → Condition → Conditions
  pub delete : Conditions → CondType → Conditions
  pub mark_true : Conditions → CondType → String → Conditions
  pub mark_false : Conditions → CondType → String → Conditions
  pub mark_stalled : Conditions → String → Conditions
  -- reconcile.ProgressiveStatus(false, obj, reason, ...)
  pub progressive_status : Conditions → String → Conditions
  pub is_ready : Conditions → Bool
  pub is_stalled : Conditions → Bool
  pub is_reconciling : Conditions → Bool
  pub is_false : Conditions → CondType → Bool
  pub get_reason : Conditions → CondType → String

-- What the documentation of those helpers promises, as far as the code relies on it.
pub record RuntimeLaws (r : Runtime) : Type 0 where
  pub get-set :
      (c : r.Conditions) (t u : CondType) (v : Condition)
      → r.get (r.set c t v) u ≡ (if same_type t u then some v else r.get c u)
  pub get-delete :
      (c : r.Conditions) (t u : CondType)
      → r.get (r.delete c t) u ≡ (if same_type t u then none else r.get c u)
  pub get-mark_true :
      (c : r.Conditions) (t u : CondType) (why : String)
      → r.get (r.mark_true c t why) u ≡ (
          if same_type t u then some (record { status = status_true; reason = why }) else r.get c u)
  pub get-mark_false :
      (c : r.Conditions) (t u : CondType) (why : String)
      → r.get (r.mark_false c t why) u ≡ (
          if same_type t u
          then some (record { status = status_false; reason = why })
          else r.get c u)
  pub stalled-mark_stalled :
      (c : r.Conditions) (why : String)
      → r.get (r.mark_stalled c why) stalled ≡ some (record { status = status_true; reason = why })
  pub reconciling-mark_stalled :
      (c : r.Conditions) (why : String) → r.get (r.mark_stalled c why) reconciling ≡ none
  pub ready-mark_stalled :
      (c : r.Conditions) (why : String) → r.get (r.mark_stalled c why) ready ≡ r.get c ready
  pub reconciling-progressive :
      (c : r.Conditions) (why : String)
      → r.get (r.progressive_status c why) reconciling
        ≡ some (record { status = status_true; reason = why })
  pub stalled-progressive :
      (c : r.Conditions) (why : String) → r.get (r.progressive_status c why) stalled ≡ none
  -- an object that is being reconciled is Ready only if it was before
  pub ready-progressive :
      (c : r.Conditions) (why : String)
      → holds (r.get (r.progressive_status c why) ready) ≡ true
      → holds (r.get c ready) ≡ true
  pub ready_sound : (c : r.Conditions) → r.is_ready c ≡ true → holds (r.get c ready) ≡ true
  pub ready_complete :
      (c : r.Conditions)
      → holds (r.get c ready) ≡ true
      → r.get c reconciling ≡ none
      → r.get c stalled ≡ none
      → r.is_ready c ≡ true
  pub is_reconciling_lem : (c : r.Conditions) → r.is_reconciling c ≡ holds (r.get c reconciling)
  pub stalled_sound : (c : r.Conditions) → r.is_stalled c ≡ true → holds (r.get c stalled) ≡ true
  pub stalled_complete :
      (c : r.Conditions)
      → holds (r.get c stalled) ≡ true
      → r.get c reconciling ≡ none
      → r.is_stalled c ≡ true
  pub is_false_lem : (c : r.Conditions) (t : CondType) → r.is_false c t ≡ fails (r.get c t)
  pub get_reason_lem : (c : r.Conditions) (t : CondType) → r.get_reason c t ≡ reason_of (r.get c t)

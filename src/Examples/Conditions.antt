-- ===== src/Examples/Conditions.antt =====
-- Conditions as a function of their type, with the documented behaviour of the condition helpers;
-- and the markers of pkg/status at an object.
use ocm_controller.Prelude.{
  String, Bool, true, false, ◌&&◌, Option, none, some, List, [], ◌≡◌, refl, arith, if◌then◌else◌, ℕ,
}
use ocm_controller.Prelude.Outcome.{Error}
use ocm_controller.Status.Runtime.{
  Runtime, RuntimeLaws, CondType, ready, reconciling, stalled, Condition, status_true, status_false,
  same_type, holds, fails, reason_of,
}
use ocm_controller.Status.World.{World}
use ocm_controller.Status.Mark.{update_status, progress}
use ocm_controller.Status.Observed.{update_status-observed, retrying}

abbrev Map : Type 0
Map = CondType → Option Condition

abbrev put : Map → CondType → Option Condition → Map
put c t v = λ u. if same_type t u then v else c u

abbrev absent : Option Condition → Bool
absent none = true
absent (some c) = false

abbrev with_reason : String → Option Condition
with_reason why = some (record { status = status_true; reason = why })

abbrev pub conditions : Runtime
conditions = record {
  Conditions = Map;
  get = λ c t. c t;
  set = λ c t v. put c t (some v);
  delete = λ c t. put c t none;
  mark_true = λ c t why. put c t (with_reason why);
  mark_false = λ c t why. put c t (some (record { status = status_false; reason = why }));
  mark_stalled = λ c why. put (put c reconciling none) stalled (with_reason why);
  progressive_status = λ c why. put (put c stalled none) reconciling (with_reason why);
  is_ready = λ c. holds (c ready) && absent (c reconciling) && absent (c stalled);
  is_stalled = λ c. holds (c stalled) && absent (c reconciling);
  is_reconciling = λ c. holds (c reconciling);
  is_false = λ c t. fails (c t);
  get_reason = λ c t. reason_of (c t);
}

pub conditions-laws : RuntimeLaws conditions
conditions-laws = record {
  get-set = λ c t u v. refl;
  get-delete = λ c t u. refl;
  get-mark_true = λ c t u why. refl;
  get-mark_false = λ c t u why. refl;
  stalled-mark_stalled = λ c why. refl;
  reconciling-mark_stalled = λ c why. refl;
  ready-mark_stalled = λ c why. refl;
  reconciling-progressive = λ c why. refl;
  stalled-progressive = λ c why. refl;
  ready-progressive = λ c why h. h;
  ready_sound = λ c h. ground arith;
  ready_complete = λ c h i j. ground arith;
  is_reconciling_lem = λ c. refl;
  stalled_sound = λ c h. ground arith;
  stalled_complete = λ c h i. ground arith;
  is_false_lem = λ c t. refl;
  get_reason_lem = λ c t. refl;
}

-- nothing is known of the object yet
abbrev pub unknown : Map
unknown t = none

abbrev in_progress : World Map ℕ String
in_progress = progress conditions (record {
  obj = "podinfo";
  generation = 2;
  observed_generation = some 1;
  conditions = unknown;
  events = [];
  cluster = 0;
})

abbrev vid : World Map ℕ String → List (String × String)
vid w = []

abbrev patch : World Map ℕ String → Option Error × ℕ
patch w = (none, 1)

update_status-observed_example :
    ((update_status conditions vid patch in_progress).1.observed_generation ≡ (
      if conditions.is_ready (update_status conditions vid patch in_progress).1.conditions
      then some 2
      else some 1))
    × ((update_status conditions vid patch in_progress).1.conditions reconciling ≡ (
        if conditions.is_reconciling in_progress.conditions
        then retrying (in_progress.conditions reconciling)
        else in_progress.conditions reconciling))
unfolding progress
update_status-observed_example =
    update_status-observed conditions conditions-laws vid patch in_progress

-- ===== src/Status/Deferred.antt =====
-- What the deferred update at the end of a reconciliation leaves of what was true before it, and how
-- a request ends.
use ocm_controller.Prelude.{
  String, ◌≡◌, refl, ap, ◌∙◌, ◌⊎◌, inl, inr, Bool, true, false, Option, none, some, List, arith,
  if◌then◌else◌,
}
use ocm_controller.Prelude.Outcome.{Error, Result, ok, err, panic, out_of_fuel, wrap, is_not_found}
use ocm_controller.Status.Runtime.{Runtime, RuntimeLaws, ready, reconciling, holds, fails, CondType}
use ocm_controller.Status.World.{
  World, Exit, next, return, panics, unfinished, Requeue, no_requeue, Act, ending, world-ending,
  deferred, request,
}
use ocm_controller.Status.Mark.{mark_retrying, observe_generation, new_event, update_status}
use ocm_controller.Status.Exits.{Exits, Claim, Settled}
use ocm_controller.Status.Reported.{Reported}

-- Patch was called with this world, and only the cluster is what it left.
pub record IsPatched (r : Runtime) {K O : Type 0}
    (patch : World r.Conditions K O → Option Error × K) (written w : World r.Conditions K O)
    : Type 0 where
  pub is_left : w ≡ record written { cluster = (patch written).1 }

module _ (r : Runtime) {K O : Type 0} (vid : World r.Conditions K O → List (String × String))
    (patch : World r.Conditions K O → Option Error × K) where
  -- the world that the update hands to Patch
  abbrev pub handed : World r.Conditions K O → World r.Conditions K O
  handed w = observe_generation r (vid (mark_retrying r (vid w) w)) (mark_retrying r (vid w) w)

  update_status-IsPatched :
      (w : World r.Conditions K O) → IsPatched r patch (handed w) (update_status r vid patch w).1
  unfolding update_status
  update_status-IsPatched w = record { is_left = refl }

  pub cluster-handed : (w : World r.Conditions K O) → (handed w).cluster ≡ w.cluster
  unfolding mark_retrying observe_generation new_event
  cluster-handed w = ground arith

  pub deferred-IsPatched :
      (m : Act (World r.Conditions K O) (Unit {0})) (w : World r.Conditions K O)
      → IsPatched r patch (handed (m w).1) (deferred (update_status r vid patch) m w).1
  deferred-IsPatched m w = record {
    is_left =
        world-ending (m w).0 (update_status r vid patch (m w).1)
        ∙ (update_status-IsPatched (m w).1).is_left;
  }

  module _ (laws : RuntimeLaws r) where
    conditions-handed :
        (w : World r.Conditions K O)
        → r.get w.conditions reconciling ≡ none
        → (handed w).conditions ≡ w.conditions
    unfolding mark_retrying observe_generation new_event
    conditions-handed w h = ground (arith, laws.is_reconciling_lem w.conditions)

    -- What the patch leaves of an object on which nothing is marked as in progress.
    same_condition :
        (x : Exit (Unit {0})) (w : World r.Conditions K O) (t : CondType)
        → r.get w.conditions reconciling ≡ none
        → r.get (ending x (update_status r vid patch w)).1.conditions t ≡ r.get w.conditions t
    same_condition x w t h =
        ap (λ (v : World r.Conditions K O). r.get v.conditions t)
          (world-ending x (update_status r vid patch w) ∙ (update_status-IsPatched w).is_left)
        ∙ ap (λ c. r.get c t) (conditions-handed w h)

-- The object was patched last, and with a verdict: nothing is marked as in progress, and Ready is True
-- or False. Where Ready is True, an error that is returned is that of the patch.
pub record Concluded (r : Runtime) {K O : Type 0}
    (patch : World r.Conditions K O → Option Error × K) (q : Requeue) (e : Option Error)
    (w : World r.Conditions K O) : Type 0 where
  pub written : World r.Conditions K O
  pub patched : IsPatched r patch written w
  pub not_reconciling : r.get w.conditions reconciling ≡ none
  pub verdict :
      ((holds (r.get w.conditions ready) ≡ true) × (e ≡ (patch written).0))
      ⊎ (fails (r.get w.conditions ready) ≡ true)

-- The object was patched last. An error that is returned is that of the patch, or it is reported:
-- Ready is False and nothing is marked as in progress.
pub record Told (r : Runtime) {K O : Type 0} (patch : World r.Conditions K O → Option Error × K)
    (q : Requeue) (e : Option Error) (w : World r.Conditions K O) : Type 0 where
  pub written : World r.Conditions K O
  pub patched : IsPatched r patch written w
  pub verdict :
      (e ≡ (patch written).0)
      ⊎ ((fails (r.get w.conditions ready) ≡ true) × (r.get w.conditions reconciling ≡ none))

module _ (r : Runtime) {K O : Type 0} (vid : World r.Conditions K O → List (String × String))
    (patch : World r.Conditions K O → Option Error × K) (laws : RuntimeLaws r) where
  -- the error of a return, joined with that of the patch
  returned_error :
      (q q' : Requeue) (e e' : Option Error) (w : World r.Conditions K O)
      → e' ≡ none
      → (ending (return q' e') (update_status r vid patch w)).0 ≡ return q e
      → e ≡ (patch (handed r vid patch w)).0
  unfolding update_status
  returned_error q q' e e' w n h = ground arith

  ended-Concluded :
      (x : Exit (Unit {0})) (w : World r.Conditions K O)
      → ((q : Requeue) (e : Option Error) → x ≡ return q e → Settled r q e w)
      → (q : Requeue) (e : Option Error) → (ending x (update_status r vid patch w)).0 ≡ return q e
      → Concluded r patch q e (ending x (update_status r vid patch w)).1
  ended-Concluded (next a) w k q e h = cc
  ended-Concluded panics w k q e h = cc
  ended-Concluded unfinished w k q e h = cc
  ended-Concluded (return q' e') w k q e h =
      let settled = k q' e' refl in
      let same = same_condition r vid patch laws (return q' e') w in
      record {
        written = handed r vid patch w;
        patched = update_status-IsPatched r vid patch w;
        not_reconciling = same reconciling settled.not_reconciling ∙ settled.not_reconciling;
        verdict = elim settled.verdict [
          | inl (is_ready, no_error) ↦ inl (
            ap holds (same ready settled.not_reconciling) ∙ is_ready,
            returned_error q q' e e' w no_error h,
          )
          | inr failed ↦ inr (ap fails (same ready settled.not_reconciling) ∙ failed)
        ];
      }

  pub deferred-Concluded :
      (m : Act (World r.Conditions K O) (Unit {0}))
      → Exits (Settled r) m
      → Exits (Concluded r patch) (deferred (update_status r vid patch) m)
  deferred-Concluded m k = record { at = λ w. ended-Concluded (m w).0 (m w).1 (k.at w) }

  ended-Told :
      (x : Exit (Unit {0})) (w : World r.Conditions K O)
      → ((q : Requeue) (e : Option Error) → x ≡ return q e → Reported r q e w)
      → (q : Requeue) (e : Option Error) → (ending x (update_status r vid patch w)).0 ≡ return q e
      → Told r patch q e (ending x (update_status r vid patch w)).1
  ended-Told (next a) w k q e h = cc
  ended-Told panics w k q e h = cc
  ended-Told unfinished w k q e h = cc
  ended-Told (return q' e') w k q e h =
      let same = same_condition r vid patch laws (return q' e') w in
      record {
        written = handed r vid patch w;
        patched = update_status-IsPatched r vid patch w;
        verdict = elim (k q' e' refl) [
          | inl no_error ↦ inl (returned_error q q' e e' w no_error h)
          | inr (failed, gone) ↦
              inr (ap fails (same ready gone) ∙ failed, same reconciling gone ∙ gone)
        ];
      }

  pub deferred-Told :
      (m : Act (World r.Conditions K O) (Unit {0}))
      → Exits (Reported r) m
      → Exits (Told r patch) (deferred (update_status r vid patch) m)
  deferred-Told m k = record { at = λ w. ended-Told (m w).0 (m w).1 (k.at w) }

-- The ways in which a request ends: the object cannot be read, and the error is returned unless the
-- object is not there; or it is not to be reconciled now, and is as it was; or what is claimed of a
-- reconciliation holds.
pub data Ends {S W : Type 0} (msg : String) (got : Result S) (load : S → W) (IsIdle : W → Type 0)
    (P : Claim W) (q : Requeue) (e : Option Error) (x : Option W) : Type 0 where
  unread :
      (failure : Error)
      → got ≡ err failure
      → e ≡ (if is_not_found failure then none else some (wrap msg failure))
      → x ≡ none
      → Ends msg got load IsIdle P q e x
  idle :
      (o : S)
      → got ≡ ok o
      → IsIdle (load o)
      → e ≡ none
      → x ≡ some (load o)
      → Ends msg got load IsIdle P q e x
  ended : (o : S) (w : W) → got ≡ ok o → x ≡ some w → P q e w → Ends msg got load IsIdle P q e x

module _ {S W : Type 0} (IsIdle : W → Type 0) (P : Claim W) where
  pub request-Ends :
      (msg : String) (got : Result S) (load : S → W) (m : Act W (Unit {0}))
      → ((w : W) (q : Requeue) (e : Option Error)
          → (m w).0 ≡ return q e
          → (IsIdle w × (e ≡ none) × ((m w).1 ≡ w)) ⊎ P q e (m w).1)
      → (q : Requeue) (e : Option Error) → (request msg got load m).0 ≡ return q e
      → Ends msg got load IsIdle P q e (request msg got load m).1
  request-Ends msg (ok o) load m k q e h = elim (k (load o) q e h) [
    | inl (is_idle, no_error, same) ↦ idle o refl is_idle no_error (ap some same)
    | inr holds ↦ ended o (m (load o)).1 refl refl holds
  ]
  request-Ends msg (err failure) load m k q e h = unread failure refl (cc h) refl
  request-Ends msg panic load m k q e h = cc
  request-Ends msg out_of_fuel load m k q e h = cc

module _ {W : Type 0} {P : Claim W} where
  -- `if obj.Spec.Suspend { return ctrl.Result{}, nil }`, before a block of which the claim holds
  pub unless_idle :
      (b : Bool) (m : Act W (Unit {0}))
      → Exits P m
      → (w : W) (q : Requeue) (e : Option Error)
      → (if b then (return no_requeue none, w) else m w).0 ≡ return q e
      → ((b ≡ true) × (e ≡ none) × ((if b then (return no_requeue none, w) else m w).1 ≡ w))
        ⊎ P q e (if b then (return no_requeue none, w) else m w).1
  unless_idle true m k w q e h = inl (refl, cc h, refl)
  unless_idle false m k w q e h = inr (k.at w q e h)

-- ===== src/Status/Exits.antt =====
-- What holds whenever an action returns from its function: one rule for each way to build an action.
use ocm_controller.Prelude.{
  ◌≡◌, ◌⊎◌, inl, inr, Bool, true, false, arith, Option, none, some, String, ap, if◌then◌else◌,
}
use ocm_controller.Prelude.Outcome.{Error, Result, ok, err, panic, out_of_fuel, Op}
use ocm_controller.Status.Runtime.{Runtime, RuntimeLaws, ready, reconciling, holds, fails}
use ocm_controller.Status.World.{
  World, Exit, next, return, panics, unfinished, Requeue, Act, go_on, ◌>>=◌, modify, read, or_else,
  try, try_op, try_step, when,
}
use ocm_controller.Status.Finish.{fail_with, stall, succeed, fail}
use ocm_controller.Status.Effects.{
  ready-mark_not_ready, reconciling-mark_not_ready, ready-mark_as_stalled,
  reconciling-mark_as_stalled, ready-mark_ready, reconciling-mark_ready,
}

-- a claim about the result and error that are returned, and the world that is left
abbrev pub Claim : Type 0 → Type 1
Claim W = Requeue → Option Error → W → Type 0

pub record Exits {W A : Type 0} (P : Claim W) (m : Act W A) : Type 0 where
  pub at : (w : W) (q : Requeue) (e : Option Error) → (m w).0 ≡ return q e → P q e (m w).1

module _ {W : Type 0} {P : Claim W} where
  pub Exits-modify : (f : W → W) → Exits P (modify f)
  Exits-modify f = record { at = λ w q e h. cc }

  pub Exits-read : {A : Type 0} (f : W → A) → Exits P (read f)
  Exits-read f = record { at = λ w q e h. cc }

  pub Exits-or_else :
      {A : Type 0} (res : Result A) (h : Error → Act W A)
      → ((e : Error) → Exits P (h e))
      → Exits P (or_else res h)
  Exits-or_else (ok a) h k = record { at = λ w q e x. cc }
  Exits-or_else (err e) h k = k e
  Exits-or_else panic h k = record { at = λ w q e x. cc }
  Exits-or_else out_of_fuel h k = record { at = λ w q e x. cc }

  pub Exits-try :
      {A : Type 0} (call : W → Result A) (h : Error → Act W A)
      → ((e : Error) → Exits P (h e))
      → Exits P (try call h)
  Exits-try call h k = record { at = λ w. (Exits-or_else (call w) h k).at w }

  pub Exits-try_step :
      {A : Type 0} (call : Op W A) (h : Error → Act W A)
      → ((e : Error) → Exits P (h e))
      → Exits P (try_step call h)
  Exits-try_step call h k = record { at = λ w. let (x, w') = call w in (Exits-or_else x h k).at w' }

  pub Exits-when : (b : Bool) (m : Act W (Unit {0})) → Exits P m → Exits P (when b m)
  Exits-when true m k = k
  Exits-when false m k = record { at = λ w q e x. cc }

  pub Exits-if :
      {A : Type 0} (b : Bool) (m n : Act W A) → Exits P m → Exits P n → Exits P (if b then m else n)
  Exits-if true m n k l = k
  Exits-if false m n k l = l

  go_on-at :
      {A B : Type 0} (x : Exit A) (f : A → Act W B) (w : W)
      → ((q : Requeue) (e : Option Error) → x ≡ return q e → P q e w)
      → ((a : A) → Exits P (f a))
      → (q : Requeue) (e : Option Error) → (go_on x f w).0 ≡ return q e
      → P q e (go_on x f w).1
  go_on-at (next a) f w k l q e h = (l a).at w q e h
  go_on-at (return q' e') f w k l q e h = k q e (ground arith)
  go_on-at panics f w k l q e h = cc
  go_on-at unfinished f w k l q e h = cc

  pub Exits-bind :
      {A B : Type 0} (m : Act W A) (f : A → Act W B)
      → Exits P m
      → ((a : A) → Exits P (f a))
      → Exits P (m >>= f)
  Exits-bind m f k l = record {
    at = λ w. let (x, w') = m w in go_on-at x f w' (λ q e h. k.at w q e h) l;
  }

module _ {C K O : Type 0} {P : Claim (World C K O)} where
  pub Exits-try_op :
      {A : Type 0} (call : World C K O → Op K A) (h : Error → Act (World C K O) A)
      → ((e : Error) → Exits P (h e))
      → Exits P (try_op call h)
  Exits-try_op call h k = record {
    at = λ w. let (x, c) = call w w.cluster in (Exits-or_else x h k).at (record w { cluster = c });
  }

pub ruleset exit_rules = (
  Exits-modify, Exits-read, Exits-or_else, Exits-try, Exits-try_op, Exits-try_step, Exits-when,
  Exits-if, Exits-bind,
)

-- A verdict was reached: nothing is marked as in progress, and Ready is True or False. An error is
-- returned only with Ready False.
pub record Settled (r : Runtime) {K O : Type 0} (q : Requeue) (e : Option Error)
    (w : World r.Conditions K O) : Type 0 where
  pub not_reconciling : r.get w.conditions reconciling ≡ none
  pub verdict :
      ((holds (r.get w.conditions ready) ≡ true) × (e ≡ none))
      ⊎ (fails (r.get w.conditions ready) ≡ true)

module _ (r : Runtime) (laws : RuntimeLaws r) {K O A : Type 0} where
  pub fail_with-Settled :
      (reason : String) (q : World r.Conditions K O → Requeue) (e : Option Error)
      → Exits (Settled r) (fail_with r {A = A} reason q e)
  unfolding fail_with
  fail_with-Settled reason q e = record {
    at = λ w q' e' h. record {
      not_reconciling = reconciling-mark_not_ready r laws reason w;
      verdict = inr (ap fails (ready-mark_not_ready r laws reason w));
    };
  }

  pub stall-Settled : (reason : String) → Exits (Settled r) (stall r {K = K} {O = O} {A = A} reason)
  unfolding stall
  stall-Settled reason = record {
    at = λ w q' e' h. record {
      not_reconciling = reconciling-mark_as_stalled r laws reason w;
      verdict = inr (ap fails (ready-mark_as_stalled r laws reason w));
    };
  }

  pub succeed-Settled :
      (q : World r.Conditions K O → Requeue) → Exits (Settled r) (succeed r {A = A} q)
  unfolding succeed
  succeed-Settled q = record {
    at = λ w q' e' h. record {
      not_reconciling = reconciling-mark_ready r laws w;
      verdict = inl (ready-mark_ready r laws w, ground arith);
    };
  }

  pub fail-Settled :
      (reason msg : String) (e : Error)
      → Exits (Settled r) (fail r {K = K} {O = O} {A = A} reason msg e)
  unfolding fail
  fail-Settled reason msg e = fail_with-Settled reason _ (some _)

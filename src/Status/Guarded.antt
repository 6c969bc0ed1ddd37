-- ===== src/Status/Guarded.antt =====
-- What holds whenever an action returns that began with a Reconciling condition: one rule for each way
-- to build an action, as in Exits, with the condition kept wherever the action goes on.
use ocm_controller.Prelude.{
  ◌≡◌, ◌≢◌, refl, sym, ap, ◌∙◌, Bool, true, false, arith, Option, none, String, if◌then◌else◌,
}
use ocm_controller.Prelude.Outcome.{Error, Result, ok, err, panic, out_of_fuel}
use ocm_controller.Status.Runtime.{Runtime, RuntimeLaws, ready, reconciling, holds}
use ocm_controller.Status.World.{
  World, Exit, next, return, panics, unfinished, Requeue, Act, go_on, ◌>>=◌, modify, read, or_else,
  try,
}
use ocm_controller.Status.Finish.{fail_with, fail, requeue}
use ocm_controller.Status.Effects.{ready-mark_not_ready}

-- nothing is marked as in progress, and Ready is True
pub record IsDone (r : Runtime) {K O : Type 0} (w : World r.Conditions K O) : Type 0 where
  pub not_reconciling : r.get w.conditions reconciling ≡ none
  pub is_ready : holds (r.get w.conditions ready) ≡ true

module _ (r : Runtime) {K O : Type 0} where
  abbrev pub InProgress : World r.Conditions K O → Type 0
  InProgress w = r.get w.conditions reconciling ≢ none

  pub record Guarded {A : Type 0} (P : World r.Conditions K O → Type 0)
      (m : Act (World r.Conditions K O) A) : Type 0 where
    pub goes_on :
        (w : World r.Conditions K O) (a : A) → InProgress w → (m w).0 ≡ next a → InProgress (m w).1
    pub ends :
        (w : World r.Conditions K O) (q : Requeue) (e : Option Error)
        → InProgress w
        → (m w).0 ≡ return q e
        → IsDone r (m w).1
        → P (m w).1

module _ {r : Runtime} {K O : Type 0} {P : World r.Conditions K O → Type 0} where
  pub Guarded-modify :
      (f : World r.Conditions K O → World r.Conditions K O)
      → ((w : World r.Conditions K O) → (f w).conditions ≡ w.conditions)
      → Guarded r P (modify f)
  Guarded-modify f k = record {
    goes_on = λ w a h e i. h (ap (λ c. r.get c reconciling) (sym (k w)) ∙ i);
    ends = λ w q e h x. cc;
  }

  pub Guarded-read : {A : Type 0} (f : World r.Conditions K O → A) → Guarded r P (read f)
  Guarded-read f = record { goes_on = λ w a h e. h; ends = λ w q e h x. cc }

  Guarded-or_else :
      {A : Type 0} (res : Result A) (h : Error → Act (World r.Conditions K O) A)
      → ((e : Error) → Guarded r P (h e))
      → Guarded r P (or_else res h)
  Guarded-or_else (ok a) h k = record { goes_on = λ w b i e. i; ends = λ w q e i x. cc }
  Guarded-or_else (err e) h k = k e
  Guarded-or_else panic h k = record { goes_on = λ w b i e. i; ends = λ w q e i x. cc }
  Guarded-or_else out_of_fuel h k = record { goes_on = λ w b i e. i; ends = λ w q e i x. cc }

  pub Guarded-try :
      {A : Type 0} (call : World r.Conditions K O → Result A)
      (h : Error → Act (World r.Conditions K O) A)
      → ((e : Error) → Guarded r P (h e))
      → Guarded r P (try call h)
  Guarded-try call h k = record {
    goes_on = λ w. (Guarded-or_else (call w) h k).goes_on w;
    ends = λ w. (Guarded-or_else (call w) h k).ends w;
  }

  pub Guarded-if :
      {A : Type 0} (b : Bool) (m n : Act (World r.Conditions K O) A)
      → Guarded r P m
      → Guarded r P n
      → Guarded r P (if b then m else n)
  Guarded-if true m n k l = k
  Guarded-if false m n k l = l

  next_after :
      {A B : Type 0} (x : Exit A) (f : A → Act (World r.Conditions K O) B)
      (w : World r.Conditions K O)
      → ((a : A) → x ≡ next a → InProgress r w)
      → ((a : A) → Guarded r P (f a))
      → (b : B) → (go_on x f w).0 ≡ next b
      → InProgress r (go_on x f w).1
  next_after (next a) f w k l b h = (l a).goes_on w b (k a refl) h
  next_after (return q e) f w k l b h = absurd (ground arith)
  next_after panics f w k l b h = cc
  next_after unfinished f w k l b h = cc

  return_after :
      {A B : Type 0} (x : Exit A) (f : A → Act (World r.Conditions K O) B)
      (w : World r.Conditions K O)
      → ((a : A) → x ≡ next a → InProgress r w)
      → ((q : Requeue) (e : Option Error) → x ≡ return q e → IsDone r w → P w)
      → ((a : A) → Guarded r P (f a))
      → (q : Requeue) (e : Option Error) → (go_on x f w).0 ≡ return q e
      → IsDone r (go_on x f w).1
      → P (go_on x f w).1
  return_after (next a) f w k j l q e h = (l a).ends w q e (k a refl) h
  return_after (return q' e') f w k j l q e h = j q' e' refl
  return_after panics f w k j l q e h = cc
  return_after unfinished f w k j l q e h = cc

  pub Guarded-bind :
      {A B : Type 0} (m : Act (World r.Conditions K O) A) (f : A → Act (World r.Conditions K O) B)
      → Guarded r P m
      → ((a : A) → Guarded r P (f a))
      → Guarded r P (m >>= f)
  Guarded-bind m f k l = record {
    goes_on = λ w b i h. next_after (m w).0 f (m w).1 (λ a e. k.goes_on w a i e) l b h;
    ends = λ w q e i h.
        return_after (m w).0 f (m w).1 (λ a x. k.goes_on w a i x) (λ q' e' x. k.ends w q' e' i x) l
          q e h;
  }

pub ruleset guard_rules = (Guarded-read, Guarded-try, Guarded-if, Guarded-bind)

module _ (r : Runtime) (laws : RuntimeLaws r) {K O A : Type 0}
    {P : World r.Conditions K O → Type 0} where
  pub fail_with-Guarded :
      (reason : String) (q : World r.Conditions K O → Requeue) (e : Option Error)
      → Guarded r P (fail_with r {A = A} reason q e)
  unfolding fail_with
  fail_with-Guarded reason q e = record {
    goes_on = λ w a i h. absurd (ground arith);
    ends = λ w q' e' i h d.
        absurd (ground (arith, d.is_ready, ap holds (ready-mark_not_ready r laws reason w)));
  }

  pub fail-Guarded :
      (reason msg : String) (e : Error) → Guarded r P (fail r {K = K} {O = O} {A = A} reason msg e)
  unfolding fail
  fail-Guarded reason msg e = fail_with-Guarded reason _ _

  pub requeue-Guarded :
      (q : World r.Conditions K O → Requeue)
      → Guarded r P (requeue {C = r.Conditions} {K = K} {O = O} {A = A} q)
  unfolding requeue
  requeue-Guarded q = record {
    goes_on = λ w a i h. absurd (ground arith);
    ends = λ w q' e' i h d. absurd (i d.not_reconciling);
  }

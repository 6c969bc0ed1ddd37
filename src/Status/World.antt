-- ===== src/Status/World.antt =====
-- What a reconciliation works on, and the ways in which it can leave a Go function.
use ocm_controller.Prelude.{
  ◌≡◌, refl, ℕ, String, Bool, true, false, Option, none, some, List, if◌then◌else◌,
}
use ocm_controller.Prelude.Outcome.{
  Error, join_errors, wrap, is_not_found, Result, ok, err, panic, out_of_fuel, Op,
}

-- An event of the Kubernetes recorder: its type, reason and annotations.
pub record Event : Type 0 where
  -- corev1.EventTypeWarning rather than EventTypeNormal
  pub warning : Bool
  pub reason : String
  pub metadata : List (String × String)

-- The object in memory (`conditions`, both generations, and the rest of its fields in `obj`), the
-- state of the cluster and of other services, and the events recorded so far, the last one first.
pub record World (C K O : Type 0) : Type 0 where
  pub obj : O
  pub generation : ℕ
  -- `none` is -1, the default of an object that was never reconciled
  pub observed_generation : Option ℕ
  pub conditions : C
  pub events : List Event
  pub cluster : K

-- ctrl.Result: the zero value, `Requeue: true`, or `RequeueAfter: d`
pub data Requeue : Type 0 where
  no_requeue requeue_now : Requeue
  requeue_after : ℕ → Requeue

-- How a block of a reconcile function ends: it goes on with a value, the function returns, or it
-- panics. `out_of_fuel` is the model's.
pub data Exit (A : Type 0) : Type 0 where
  next : A → Exit A
  return : Requeue → Option Error → Exit A
  panics : Exit A
  unfinished : Exit A

abbrev pub Act : Type 0 → Type 0 → Type 0
Act W A = W → Exit A × W

module _ {W : Type 0} where
  abbrev pub go_on : {A B : Type 0} → Exit A → (A → Act W B) → Act W B
  go_on (next a) f w = f a w
  go_on (return q e) f w = (return q e, w)
  go_on panics f w = (panics, w)
  go_on unfinished f w = (unfinished, w)

  infixl 5 ◌>>=◌ ◌>>◌
  abbrev pub ◌>>=◌ : {A B : Type 0} → Act W A → (A → Act W B) → Act W B
  ◌>>=◌ m f w = let (e, w') = m w in go_on e f w'

  abbrev pub ◌>>◌ : {B : Type 0} → Act W (Unit {0}) → Act W B → Act W B
  m >> k = m >>= λ _. k

  -- a call that changes the world and cannot fail
  abbrev pub modify : (W → W) → Act W (Unit {0})
  modify f w = (next tt, f w)

  abbrev pub read : {A : Type 0} → (W → A) → Act W A
  read f w = (next (f w), w)

  abbrev pub returns : {A : Type 0} → Requeue → Option Error → Act W A
  returns q e w = (return q e, w)

  -- `x, err := call(); if err != nil { ... }`, where the block under the test returns
  abbrev pub or_else : {A : Type 0} → Result A → (Error → Act W A) → Act W A
  or_else (ok a) h w = (next a, w)
  or_else (err e) h w = h e w
  or_else panic h w = (panics, w)
  or_else out_of_fuel h w = (unfinished, w)

  -- the same for a call that reads what the world is then
  abbrev pub try : {A : Type 0} → (W → Result A) → (Error → Act W A) → Act W A
  try call h w = or_else (call w) h w

  -- the same for a call that changes the world
  abbrev pub try_step : {A : Type 0} → Op W A → (Error → Act W A) → Act W A
  try_step call h w = let (r, w') = call w in or_else r h w'

  abbrev pub when : Bool → Act W (Unit {0}) → Act W (Unit {0})
  when true m w = m w
  when false m w = (next tt, w)

  abbrev pub ending : Exit (Unit {0}) → Option Error × W → Exit (Unit {0}) × W
  ending (return q x) last = (return q (join_errors x last.0), last.1)
  ending (next a) last = (next a, last.1)
  ending panics last = (panics, last.1)
  ending unfinished last = (unfinished, last.1)

  -- A deferred call that may fail: it runs on each way out, and its error joins the result.
  abbrev pub deferred : (W → Option Error × W) → Act W (Unit {0}) → Act W (Unit {0})
  deferred last m w = let (e, w') = m w in ending e (last w')

module _ {W : Type 0} where
  pub world-ending : (e : Exit (Unit {0})) (last : Option Error × W) → (ending e last).1 ≡ last.1
  world-ending (next a) last = refl
  world-ending (return q x) last = refl
  world-ending panics last = refl
  world-ending unfinished last = refl

module _ {C K O : Type 0} where
  -- `try` for a call that also changes the cluster
  abbrev pub try_op :
      {A : Type 0} → (World C K O → Op K A) → (Error → Act (World C K O) A) → Act (World C K O) A
  try_op call h w = let (r, k) = call w w.cluster in or_else r h (record w { cluster = k })

-- Reconcile of a request, for the object that was read or the error of reading it: how it ends, and
-- the world that it leaves if the object was there.
abbrev pub request :
    {S W : Type 0} → String → Result S → (S → W) → Act W (Unit {0}) → Exit (Unit {0}) × Option W
request msg (ok o) load m = let (e, w) = m (load o) in (e, some w)
request msg (err e) load m =
    (return no_requeue (if is_not_found e then none else some (wrap msg e)), none)
request msg panic load m = (panics, none)
request msg out_of_fuel load m = (unfinished, none)

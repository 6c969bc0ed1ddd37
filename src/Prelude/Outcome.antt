-- ===== src/Prelude/Outcome.antt =====
-- What a Go call ends in: a value, an error, a run-time panic, or a recursion that needs more fuel
-- than it was given. The texts of errors are the constant parts of their format strings.
use Prim.Native.Nat.{ℕ}
use Prim.Native.String.{String}
use mathlib.Core.Bool.{Bool, true, false, ◌||◌}
use mathlib.Core.Path.{◌≡◌, refl}
use ocm_controller.Prelude.Tests.{if◌then◌else◌}
use mathlib.Core.Logic.{◌≢◌, ◌⊎◌, inl, inr}
use mathlib.Core.Option.{Option, none, some}
use mathlib.Core.List.{List}

pub data Error : Type 0 where
  -- errors.New, or fmt.Errorf with nothing wrapped
  plain : String → Error
  -- the answer of the API server that an object is not there
  not_found : Error
  -- errTar and errCVNotReady
  not_a_tar cv_not_ready : Error
  -- transport.Error: the HTTP status, and the codes of its diagnostics
  transport : ℕ → List String → Error
  -- fmt.Errorf("...: %w", err)
  wrap : String → Error → Error
  -- errors.Join
  join : Error → Error → Error

-- apierrors.IsNotFound, which reads through wrapped and joined errors
unfoldable pub is_not_found : Error → Bool
is_not_found not_found = true
is_not_found (wrap m e) = is_not_found e
is_not_found (join a b) = is_not_found a || is_not_found b
is_not_found _ = false

-- errors.Is(err, errTar)
unfoldable pub is_not_a_tar : Error → Bool
is_not_a_tar not_a_tar = true
is_not_a_tar (wrap m e) = is_not_a_tar e
is_not_a_tar (join a b) = is_not_a_tar a || is_not_a_tar b
is_not_a_tar _ = false

-- errors.Is(err, errCVNotReady)
unfoldable pub is_cv_not_ready : Error → Bool
is_cv_not_ready cv_not_ready = true
is_cv_not_ready (wrap m e) = is_cv_not_ready e
is_cv_not_ready (join a b) = is_cv_not_ready a || is_cv_not_ready b
is_cv_not_ready _ = false

-- errors.As(err, &terr) for a transport.Error: its status, and the codes of its diagnostics
unfoldable pub as_transport : Error → Option (ℕ × List String)
as_transport (transport status codes) = some (status, codes)
as_transport (wrap m e) = as_transport e
as_transport (join a b) =
    let later = as_transport b in elim (as_transport a) [ none ↦ later | found ↦ found ]
as_transport _ = none

-- errors.Join of two errors that may be nil
abbrev pub join_errors : Option Error → Option Error → Option Error
join_errors none b = b
join_errors (some a) none = some a
join_errors (some a) (some b) = some (join a b)

pub data Result {ℓ} (A : Type ℓ) : Type ℓ where
  ok : A → Result A
  err : Error → Result A
  panic : Result A
  out_of_fuel : Result A

-- An operation on a state that may fail; what was written before the failure stays written.
abbrev pub Op : Type 0 → Type 0 → Type 0
Op S A = S → Result A × S

abbrev pub continue : {S A B : Type 0} → Result A → (A → Op S B) → Op S B
continue (ok a) f s = f a s
continue (err e) f s = (err e, s)
continue panic f s = (panic, s)
continue out_of_fuel f s = (out_of_fuel, s)

infixl 5 ◌>>=◌
abbrev pub ◌>>=◌ : {S A B : Type 0} → Op S A → (A → Op S B) → Op S B
◌>>=◌ m f s = let (r, s') = m s in continue r f s'

abbrev pub pure : {S A : Type 0} → A → Op S A
pure a s = (ok a, s)

-- if err != nil { return fmt.Errorf("msg: %w", err) }
abbrev pub context {ℓ} : {A : Type ℓ} → String → Result A → Result A
context msg (ok a) = ok a
context msg (err e) = err (wrap msg e)
context msg panic = panic
context msg out_of_fuel = out_of_fuel

abbrev pub in_context : {S A : Type 0} → String → Op S A → Op S A
in_context msg m s = let (r, s') = m s in (context msg r, s')

abbrev pub lift : {S A : Type 0} → Result A → Op S A
lift r s = (r, s)

-- a call that only reads the state
abbrev pub reading : {S A : Type 0} → (S → Result A) → Op S A
reading call s = (call s, s)

-- A step of a `do` block that ended well had a value.
pub lift-bind-ok :
    {S A B : Type 0} (msg : String) (r : Result A) (f : A → Op S B) (s : S) {b : B}
    → (continue (context msg r) f s).0 ≡ ok b
    → (a : A) × (r ≡ ok a) × ((f a s).0 ≡ ok b)
lift-bind-ok msg (ok a) f s h = (a, refl, h)
lift-bind-ok msg (err e) f s h = cc
lift-bind-ok msg panic f s h = cc
lift-bind-ok msg out_of_fuel f s h = cc

pub bind-ok :
    {S A B : Type 0} (r : Result A) (f : A → Op S B) (s : S) {b : B}
    → (continue r f s).0 ≡ ok b
    → (a : A) × (r ≡ ok a) × ((f a s).0 ≡ ok b)
bind-ok (ok a) f s h = (a, refl, h)
bind-ok (err e) f s h = cc
bind-ok panic f s h = cc
bind-ok out_of_fuel f s h = cc

-- The same, with what the rest of the block is then.
pub step-ok :
    {S A B : Type 0} (r : Result A) (f : A → Op S B) (s : S) {b : B}
    → (continue r f s).0 ≡ ok b
    → (a : A) × (r ≡ ok a) × (continue r f s ≡ f a s)
step-ok (ok a) f s h = (a, refl, refl)
step-ok (err e) f s h = cc
step-ok panic f s h = cc
step-ok out_of_fuel f s h = cc

-- The same for a test of which one side cannot end so.
pub else-ok :
    {S A : Type 0} (b : Bool) (x y : Op S A) (s : S) {a : A}
    → ((if b then x else y) s).0 ≡ ok a
    → (x s).0 ≢ ok a
    → (b ≡ false) × ((if b then x else y) s ≡ y s)
else-ok true x y s h g = absurd (g h)
else-ok false x y s h g = (refl, refl)

pub context-ok {ℓ} :
    {A : Type ℓ} (msg : String) (r : Result A) {a : A} → context msg r ≡ ok a → r ≡ ok a
context-ok msg (ok a) h = h
context-ok msg (err e) h = cc
context-ok msg panic h = cc
context-ok msg out_of_fuel h = cc

-- A step that ends, before a rest that ends, and the same under an error's context.
pub bind_ends :
    {S A B : Type 0} (r : Result A) (f : A → Op S B) (s : S)
    → r ≢ out_of_fuel
    → ((a : A) → r ≡ ok a → (f a s).0 ≢ out_of_fuel)
    → (continue r f s).0 ≢ out_of_fuel
bind_ends (ok a) f s h k = k a refl
bind_ends (err e) f s h k = λ x. cc
bind_ends panic f s h k = λ x. cc
bind_ends out_of_fuel f s h k = absurd (h refl)

pub context_ends {ℓ} :
    {A : Type ℓ} (msg : String) (r : Result A) → r ≢ out_of_fuel → context msg r ≢ out_of_fuel
context_ends msg (ok a) h = h
context_ends msg (err e) h = λ x. cc
context_ends msg panic h = h
context_ends msg out_of_fuel h = h

-- A split on a computed result that keeps the equation.
pub Result-cases :
    {A : Type 0} (x : Result A)
    → ((a : A) × (x ≡ ok a)) ⊎ (((e : Error) × (x ≡ err e)) ⊎ ((x ≡ panic) ⊎ (x ≡ out_of_fuel)))
Result-cases (ok a) = inl (a, refl)
Result-cases (err e) = inr (inl (e, refl))
Result-cases panic = inr (inr (inl refl))
Result-cases out_of_fuel = inr (inr (inr refl))

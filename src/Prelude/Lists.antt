-- ===== src/Prelude/Lists.antt =====
-- Lists measured by native numbers, membership by recursion, and association lists with text keys.
use Prim.Native.Nat.{ℕ, suc}
use Prim.Native.String.{String}
use mathlib.Core.Path.{◌≡◌}
use mathlib.Core.Logic.{◌⊎◌}
use mathlib.Core.List.{List, [], ◌∷◌}
use mathlib.Core.Option.{Option, none, some}
use text.Mathlib.Text.{◌==◌}
use ocm_controller.Prelude.Tests.{if◌then◌else◌}

module _ {ℓ} {A : Type ℓ} where
  abbrev pub length : List A → ℕ
  length [] = 0
  length (x ∷ xs) = suc (length xs)

  abbrev pub All {κ} : (A → Type κ) → List A → Type κ
  All P [] = Unit
  All P (x ∷ xs) = P x × All P xs

-- `a` is one of the items.
abbrev pub In : {A : Type 0} → A → List A → Type 0
In a [] = ⊥
In a (x ∷ xs) = (x ≡ a) ⊎ In a xs

module _ {ℓ} {V : Type ℓ} where
  -- The first value at a key: a Go map with text keys, read.
  abbrev pub lookup : String → List (String × V) → Option V
  lookup k [] = none
  lookup k ((j, v) ∷ m) = if j == k then some v else lookup k m

  -- A Go map with text keys, written.
  abbrev pub insert : String → V → List (String × V) → List (String × V)
  insert k v [] = (k, v) ∷ []
  insert k v ((j, w) ∷ m) = if j == k then (k, v) ∷ m else (j, w) ∷ insert k v m

-- ===== src/Prelude/Split.antt =====
-- strings.Split with a separator of one byte, and how it reads a text that is put together.
use Prim.Native.Char.{Char, code}
use Prim.Native.Nat.{ℕ}
use Prim.Native.String.{String, ◌++◌}
use Prim.Native.String.append
use mathlib.Core.Bool.{Bool, true, false}
use mathlib.Core.Path.{◌≡◌, refl, ap, ◌∙◌}
use mathlib.Core.List.{List, [], ◌∷◌}
use mathlib.Core.List.{◌++◌ as list_append}
use native.Mathlib.Omega.{arith}
use ocm_controller.Prelude.Tests.{nat_eq, if◌then◌else◌}

-- the first part of a text grows by a character
abbrev grow : Char → List String → List String
grow c [] = []
grow c (t ∷ ts) = (String.◌∷◌ c t) ∷ ts

unfoldable pub split : ℕ → String → List String
split sep String.[] = "" ∷ []
split sep (String.◌∷◌ c s) =
    let rest = split sep s in if nat_eq (code c) sep then "" ∷ rest else grow c rest

-- There is always a first part.
pub data IsParts : List String → Type 0 where
  parts : (t : String) (ts : List String) → IsParts (t ∷ ts)

grow-IsParts : (c : Char) (ts : List String) → IsParts ts → IsParts (grow c ts)
grow-IsParts c _ (parts t ts) = parts _ _

if-IsParts :
    (b : Bool) (xs ys : List String) → IsParts xs → IsParts ys → IsParts (if b then xs else ys)
if-IsParts true xs ys h g = h
if-IsParts false xs ys h g = g

pub split-IsParts : (sep : ℕ) (s : String) → IsParts (split sep s)
unfolding split
split-IsParts sep String.[] = parts _ _
split-IsParts sep (String.◌∷◌ c s) =
    if-IsParts (nat_eq (code c) sep) _ _ (parts _ _) (grow-IsParts c _ (split-IsParts sep s))

grow-append :
    (c : Char) (ts us : List String)
    → IsParts ts
    → grow c (list_append ts us) ≡ list_append (grow c ts) us
grow-append c _ us (parts t ts) = refl

if-append :
    (b : Bool) (xs ys zs : List String)
    → (if b then list_append xs zs else list_append ys zs) ≡ list_append (if b then xs else ys) zs
if-append true xs ys zs = refl
if-append false xs ys zs = refl

-- Two texts with the separator between them have the parts of both.
pub split-append :
    (sep : ℕ) (s : String) (c : Char) (t : String)
    → nat_eq (code c) sep ≡ true
    → split sep (s ++ (String.◌∷◌ c t)) ≡ list_append (split sep s) (split sep t)
unfolding split
split-append sep String.[] c t h = rw (append.nil (String.◌∷◌ c t)) (ground (arith, h))
split-append sep (String.◌∷◌ d s) c t h = rw (append.cons d s (String.◌∷◌ c t)) (
    rw (split-append sep s c t h) (
      rw (grow-append d (split sep s) (split sep t) (split-IsParts sep s))
        (if-append (nat_eq (code d) sep) _ _ _)))

-- The separator is not in the text.
unfoldable pub lacks : ℕ → String → Bool
lacks sep String.[] = true
lacks sep (String.◌∷◌ c s) = let rest = lacks sep s in if nat_eq (code c) sep then false else rest

pub lacks-append :
    (sep : ℕ) (s t : String) → lacks sep s ≡ true → lacks sep t ≡ true → lacks sep (s ++ t) ≡ true
unfolding lacks
lacks-append sep String.[] t h g = rw (append.nil t) g
lacks-append sep (String.◌∷◌ c s) t h g =
    rw (append.cons c s t) (ground (arith, h, g, lacks-append sep s t))

pub split-lacks : (sep : ℕ) (s : String) → lacks sep s ≡ true → split sep s ≡ s ∷ []
unfolding split lacks
split-lacks sep String.[] h = refl
split-lacks sep (String.◌∷◌ c s) h = ground (arith, h, split-lacks sep s)

-- A first part that has no separator, and the rest.
pub split-lacks-append :
    (sep : ℕ) (s : String) (c : Char) (t : String)
    → nat_eq (code c) sep ≡ true
    → lacks sep s ≡ true
    → split sep (s ++ (String.◌∷◌ c t)) ≡ s ∷ split sep t
split-lacks-append sep s c t h g =
    split-append sep s c t h ∙ ap (λ ts. list_append ts (split sep t)) (split-lacks sep s g)

-- ===== src/Prelude/TextOrder.antt =====
-- `<` on texts, and that it is a strict total order.
use Prim.Native.Char.{code}
use Prim.Native.String.{String, [], ◌∷◌}
use mathlib.Core.Bool.{Bool, true, false}
use mathlib.Core.Path.{◌≡◌, refl, ap, ◌∙◌}
use native.Mathlib.Omega.{arith}
use text.Mathlib.TextEquality.{Char-path}
use ocm_controller.Prelude.Tests.{ltb, if◌then◌else◌}

unfoldable pub text_less : String → String → Bool
text_less [] [] = false
text_less [] (d ∷ t) = true
text_less (c ∷ s) [] = false
text_less (c ∷ s) (d ∷ t) =
    let rest = text_less s t in
    if ltb (code c) (code d) then true else if ltb (code d) (code c) then false else rest

pub text_less-irreflexive : (s : String) → text_less s s ≡ false
unfolding text_less
text_less-irreflexive [] = refl
text_less-irreflexive (c ∷ s) = ground (arith, text_less-irreflexive s)

pub text_less-transitive :
    (s t u : String) → text_less s t ≡ true → text_less t u ≡ true → text_less s u ≡ true
unfolding text_less
text_less-transitive [] [] [] h i = cc
text_less-transitive [] (d ∷ t) [] h i = cc
text_less-transitive [] t (e ∷ u) h i = refl
text_less-transitive (c ∷ s) [] u h i = cc
text_less-transitive (c ∷ s) (d ∷ t) [] h i = cc
text_less-transitive (c ∷ s) (d ∷ t) (e ∷ u) h i = ground (arith, text_less-transitive s t u)

pub text_less-total : (s t : String) → text_less s t ≡ false → text_less t s ≡ false → s ≡ t
unfolding text_less
text_less-total [] [] h i = refl
text_less-total [] (d ∷ t) h i = cc
text_less-total (c ∷ s) [] h i = cc
text_less-total (c ∷ s) (d ∷ t) h i =
    let e = Char-path c d (ground arith) in
    let e' = text_less-total s t (ground arith) (ground arith) in
    ap (λ x. x ∷ s) e ∙ ap (λ u. d ∷ u) e'

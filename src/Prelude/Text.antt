-- ===== src/Prelude/Text.antt =====
-- What the program uses of fmt and strings, on native texts: `%d`, and ReplaceAll and Index of "/".
use Prim.Native.Char.{Char, code}
use Prim.Native.Nat.{ℕ, zero, suc, ◌/◌, ◌%◌}
use Prim.Native.String.{String, [], ◌∷◌, ◌++◌}
use Prim.Native.String.append
use mathlib.Core.Bool.{Bool, false, ◌||◌}
use mathlib.Core.Path.{◌≡◌, refl, ◌∙◌, ap}
use mathlib.Core.Option.{Option, none, some}
use mathlib.Core.Option as Opt
use native.Mathlib.Omega.{arith}
use ocm_controller.Prelude.Tests.{nat_eq, ltb, if◌then◌else◌}

abbrev digit : ℕ → String
digit zero = "0"
digit (suc zero) = "1"
digit (suc (suc zero)) = "2"
digit (suc (suc (suc zero))) = "3"
digit (suc (suc (suc (suc zero)))) = "4"
digit (suc (suc (suc (suc (suc zero))))) = "5"
digit (suc (suc (suc (suc (suc (suc zero)))))) = "6"
digit (suc (suc (suc (suc (suc (suc (suc zero))))))) = "7"
digit (suc (suc (suc (suc (suc (suc (suc (suc zero)))))))) = "8"
digit _ = "9"

digits : ℕ → ℕ → String → String
digits zero n out = out
digits (suc f) n out =
    let out' = digit (n % 10) ++ out in
    let rest = digits f (n / 10) out' in if ltb n 10 then out' else rest

-- `%d` of a uint64, which has at most 20 digits
unfoldable pub decimal : ℕ → String
unfolding digits
decimal n = digits 20 n ""

abbrev pub is_slash : Char → Bool
is_slash c = nat_eq (code c) b'/'

unfoldable pub has_slash : String → Bool
has_slash [] = false
has_slash (c ∷ s) = is_slash c || has_slash s

-- strings.ReplaceAll(s, "/", "-")
unfoldable pub replace_slashes : String → String
replace_slashes [] = ""
replace_slashes (c ∷ s) =
    let rest = replace_slashes s in if is_slash c then "-" ++ rest else c ∷ rest

-- s[0:strings.Index(s, "/")]; `none` where there is no slash and the slice is out of range
unfoldable pub before_slash : String → Option String
before_slash [] = none
before_slash (c ∷ s) =
    let rest = Opt.map (λ t. c ∷ t) (before_slash s) in if is_slash c then some "" else rest

abbrev slash : Char
slash = "/"

slash_cons : (t : String) → ("/" ++ t) ≡ slash ∷ t
slash_cons t = append.cons slash [] t ∙ ap (λ u. slash ∷ u) (append.nil t)

dash_append : (t : String) → has_slash ("-" ++ t) ≡ has_slash t
unfolding has_slash
dash_append t = rw (append.cons "-" [] t) (rw (append.nil t))

pub has_slash-append : (s t : String) → has_slash (s ++ t) ≡ (has_slash s || has_slash t)
unfolding has_slash
has_slash-append [] t = rw (append.nil t)
has_slash-append (c ∷ s) t = rw (append.cons c s t) (ground (arith, has_slash-append s t))

pub has_slash-replace_slashes : (s : String) → has_slash (replace_slashes s) ≡ false
unfolding has_slash replace_slashes
has_slash-replace_slashes [] = refl
has_slash-replace_slashes (c ∷ s) =
    ground (arith, has_slash-replace_slashes s, dash_append (replace_slashes s))

has_slash-digit : (n : ℕ) → has_slash (digit n) ≡ false
unfolding has_slash
has_slash-digit zero = refl
has_slash-digit (suc zero) = refl
has_slash-digit (suc (suc zero)) = refl
has_slash-digit (suc (suc (suc zero))) = refl
has_slash-digit (suc (suc (suc (suc zero)))) = refl
has_slash-digit (suc (suc (suc (suc (suc zero))))) = refl
has_slash-digit (suc (suc (suc (suc (suc (suc zero)))))) = refl
has_slash-digit (suc (suc (suc (suc (suc (suc (suc zero))))))) = refl
has_slash-digit (suc (suc (suc (suc (suc (suc (suc (suc zero)))))))) = refl
has_slash-digit _ = refl

has_slash-digits :
    (f n : ℕ) (out : String) → has_slash out ≡ false → has_slash (digits f n out) ≡ false
unfolding digits
has_slash-digits zero n out h = h
has_slash-digits (suc f) n out h =
    let out' = digit (n % 10) ++ out in
    let h' : has_slash out' ≡ false =
      rw (has_slash-append (digit (n % 10)) out, has_slash-digit (n % 10)) h in
    ground (arith, h', has_slash-digits f (n / 10) out')

pub has_slash-decimal : (n : ℕ) → has_slash (decimal n) ≡ false
unfolding decimal has_slash
has_slash-decimal n = has_slash-digits 20 n "" refl

pub before_slash-append :
    (s t : String) → has_slash s ≡ false → before_slash (s ++ ("/" ++ t)) ≡ some s
unfolding has_slash before_slash
before_slash-append [] t h = rw (append.nil ("/" ++ t), slash_cons t)
before_slash-append (c ∷ s) t h =
    rw (append.cons c s ("/" ++ t)) (ground (arith, before_slash-append s t))

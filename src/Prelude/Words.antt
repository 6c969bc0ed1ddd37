-- ===== src/Prelude/Words.antt =====
-- A 64-bit word that is put together from two 32-bit words, with the operations `|` and `&` of Go on
-- the binary digits.
use Prim.Native.Nat.{
  ℕ, zero, suc, ◌+◌, ◌-◌, ◌*◌, ◌/◌, ◌%◌, ◌^◌, ◌≤◌, ◌<◌, min, max, digits, bit_and, bit_or,
  bit_and-bitwise, bit_or-bitwise,
}
use mathlib.Core.Path.{◌≡◌, refl, ◌∙◌}
use native.Mathlib.Omega.{arith}

double : (k x : ℕ) → x * 2 ^ suc k ≡ 2 * (x * 2 ^ k)
double k x = grind arith

-- a multiple of 2 ^ k, or'ed with a smaller number
or_digits : (n k x a y : ℕ) → a ≤ n → a ≡ x * 2 ^ k → y < 2 ^ k → digits (λ b. b) max n a y ≡ a + y
or_digits zero k x zero y le e lt = omega arith
or_digits zero k x (suc a) y le e lt = absurd (omega arith)
or_digits (suc n) k x zero y le e lt = omega arith
or_digits (suc n) zero x (suc a) y le e lt = omega (
  arith,
  or_digits n zero (suc a / 2) (suc a / 2) (y / 2) (omega arith) (omega arith) (omega arith),
)
or_digits (suc n) (suc k) x (suc a) y le e lt =
    let half : suc a ≡ 2 * (x * 2 ^ k) = omega (arith, double k x) in
    omega (
      arith,
      half,
      or_digits n k x (suc a / 2) (y / 2) (omega arith) (omega (arith, half)) (grind arith),
    )

pub or_add : (k x y : ℕ) → y < 2 ^ k → bit_or (x * 2 ^ k) y ≡ x * 2 ^ k + y
or_add k x y lt =
    bit_or-bitwise (x * 2 ^ k) y ∙ or_digits (x * 2 ^ k) k x (x * 2 ^ k) y (omega arith) refl lt

-- and'ed with 2 ^ k - 1: the number below 2 ^ k is left
and_digits :
    (n k x a y : ℕ)
    → a ≤ n
    → a ≡ x * 2 ^ k + y
    → y < 2 ^ k
    → digits (λ b. zero) min n a (2 ^ k - 1) ≡ y
and_digits zero k x zero y le e lt = omega arith
and_digits zero k x (suc a) y le e lt = absurd (omega arith)
and_digits (suc n) k x zero y le e lt = omega arith
and_digits (suc n) zero x (suc a) y le e lt = omega (
  arith,
  and_digits n zero (suc a / 2) (suc a / 2) (y / 2) (omega arith) (omega arith) (omega arith),
)
and_digits (suc n) (suc k) x (suc a) y le e lt =
    let whole : suc a ≡ 2 * (x * 2 ^ k) + y = omega (arith, double k x) in
    let mask : (2 ^ suc k - 1) / 2 ≡ 2 ^ k - 1 = grind arith in
    let odd : (2 ^ suc k - 1) % 2 ≡ 1 = grind arith in
    rw (mask, odd)
      (omega (
        arith,
        whole,
        and_digits n k x (suc a / 2) (y / 2) (omega arith) (omega (arith, whole)) (grind arith),
      ))

pub and_low : (k x y : ℕ) → y < 2 ^ k → bit_and (x * 2 ^ k + y) (2 ^ k - 1) ≡ y
and_low k x y lt =
    bit_and-bitwise (x * 2 ^ k + y) (2 ^ k - 1)
    ∙ and_digits (x * 2 ^ k + y) k x (x * 2 ^ k + y) y (omega arith) refl lt

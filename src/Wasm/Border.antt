-- ===== src/Wasm/Border.antt =====
-- What a WASM module makes of the results of the host.
use Prim.Native.Nat.{bit_or}
use ocm_controller.Prelude.{
  ℕ, ◌≡◌, refl, sym, ap, ◌∙◌, ◌+◌, ◌*◌, ◌%◌, ◌^◌, ◌≤◌, ◌<◌, false, nat_eq, none, [], ◌∷◌, arith,
}
use ocm_controller.Prelude.Words.{or_add, and_low}
use ocm_controller.Prelude.Outcome.{ok}
use ocm_controller.Wasm.Errors.{check, check-get_message, check_code-forgets}
use ocm_controller.Wasm.Memory.{pack, pointer_of, size_of, memory, guest_answer}

pack_lem : (ptr size : ℕ) → ptr < 2 ^ 32 → size < 2 ^ 32 → pack ptr size ≡ ptr * 2 ^ 32 + size
unfolding pack
pack_lem ptr size hp hs =
    let word : ptr * 2 ^ 32 % 2 ^ 64 ≡ ptr * 2 ^ 32 = omega arith in
    ap (λ w. bit_or w size) word ∙ or_add 32 ptr size hs

size_lem : (ptr size : ℕ) → size < 2 ^ 32 → size_of (ptr * 2 ^ 32 + size) ≡ size
unfolding size_of
size_lem ptr size hs = rw (and_low 32 ptr size hs) (omega arith)

pointer_lem : (ptr size : ℕ) → ptr < 2 ^ 32 → size < 2 ^ 32 → pointer_of (ptr * 2 ^ 32 + size) ≡ ptr
unfolding pointer_of
pointer_lem ptr size hp hs = omega arith

answer_lem : (v : ℕ) → nat_eq v 12 ≡ false → guest_answer v ≡ ok (memory (pointer_of v) (size_of v))
unfolding guest_answer
answer_lem v h = ground (arith, check_code-forgets v [])

-- A pointer that is not 0 and a size, both below 2 ^ 32, cross the border: the word that Write makes of
-- them is below 2 ^ 64, Check and CheckCode find no error in it, and the guest reads that pointer and
-- that size from it.
pub guest_answer-pack :
    (ptr size : ℕ)
    → 1 ≤ ptr
    → ptr < 2 ^ 32
    → size < 2 ^ 32
    → (pack ptr size < 2 ^ 64)
      × (check (pack ptr size ∷ []) ≡ ok none)
      × (guest_answer (pack ptr size) ≡ ok (memory ptr size))
guest_answer-pack ptr size one hp hs = rw (pack_lem ptr size hp hs) (
  omega arith,
  check-get_message (ptr * 2 ^ 32 + size) [] ∙ ground arith,
  answer_lem (ptr * 2 ^ 32 + size) (ground arith)
      ∙ rw (pointer_lem ptr size hp hs, size_lem ptr size hs) refl,
)

-- Each error code of the host but 12 reaches the guest as a success: as the memory at address 0, of
-- the size that the code has.
pub guest_answer-forgets :
    (error : ℕ) → 1 ≤ error → error ≤ 11 → guest_answer error ≡ ok (memory 0 error)
guest_answer-forgets error one le =
    let same : 0 * 2 ^ 32 + error ≡ error = omega arith in
    let pointer : pointer_of error ≡ 0 =
      ap pointer_of (sym same) ∙ pointer_lem 0 error (omega arith) (omega arith) in
    let size : size_of error ≡ error = ap size_of (sym same) ∙ size_lem 0 error (omega arith) in
    answer_lem error (ground arith) ∙ rw (pointer, size) refl

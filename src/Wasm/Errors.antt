-- ===== src/Wasm/Errors.antt =====
-- Check, CheckCode and GetMessage of pkg/wasm/errors/errors.go. A code is a uint64; the calls read
-- the first item of a result, and panic where there is none.
use ocm_controller.Prelude.{
  ℕ, String, ◌≡◌, ◌&&◌, Option, none, some, List, [], ◌∷◌, map, arith, if◌then◌else◌, nat_eq, leb,
}
use ocm_controller.Prelude.Outcome.{Error, plain, Result, ok, panic}

-- A switch on a code: its cases, and what comes after it.
abbrev pub switch : {A : Type 0} → ℕ → List (ℕ × A) → A → A
switch n [] otherwise = otherwise
switch n ((code, a) ∷ cases) otherwise =
    let later = switch n cases otherwise in if nat_eq n code then a else later

-- ErrExit = 1, ..., ErrConfig = 13, each with its message
abbrev pub messages : List (ℕ × String)
messages =
    (1, "error encountered")
    ∷ (2, "invalid or missing arguments")
    ∷ (3, "could not read/write file")
    ∷ (4, "could not allocate memory")
    ∷ (5, "could not write result")
    ∷ (6, "ocm resource not found")
    ∷ (7, "ocm resource not accessible")
    ∷ (8, "file not found")
    ∷ (9, "json is not valid")
    ∷ (10, "yaml is not valid")
    ∷ (11, "json is not valid")
    ∷ (12, "yaml is not valid")
    ∷ (13, "config is not valid")
    ∷ []

abbrev pub failed_with : ℕ × String → ℕ × Option Error
failed_with (code, message) = (code, some (plain message))

unfoldable pub check : List ℕ → Result (Option Error)
check [] = panic
check (code ∷ rest) = ok (switch code (map failed_with messages) none)

-- Go has no fallthrough: a case without a body leaves the switch.
abbrev pub code_cases : ℕ → List (ℕ × ℕ)
code_cases err =
    (1, 0)
    ∷ (2, 0)
    ∷ (3, 0)
    ∷ (4, 0)
    ∷ (5, 0)
    ∷ (6, 0)
    ∷ (7, 0)
    ∷ (8, 0)
    ∷ (9, 0)
    ∷ (10, 0)
    ∷ (11, 0)
    ∷ (12, err)
    ∷ []

unfoldable pub check_code : List ℕ → Result ℕ
check_code [] = panic
check_code (code ∷ rest) = ok (switch code (code_cases code) 0)

unfoldable pub get_message : ℕ → String
get_message code = switch code messages "unknown error"

-- Check reports an error for the codes 1 to 13 and for no other, with the text that GetMessage has
-- for the code.
pub check-get_message :
    (code : ℕ) (rest : List ℕ)
    → check (code ∷ rest)
      ≡ ok (if leb 1 code && leb code 13 then some (plain (get_message code)) else none)
unfolding check get_message
check-get_message code rest = ground arith

-- CheckCode answers 0 for each code but 12, the one of ErrEncodingYAML, so also for the codes of
-- which Check makes an error.
pub check_code-forgets :
    (code : ℕ) (rest : List ℕ) → check_code (code ∷ rest) ≡ ok (if nat_eq code 12 then 12 else 0)
unfolding check_code
check_code-forgets code rest = ground arith

-- ===== src/Wasm/Memory.antt =====
-- What crosses the border to a WASM module: Write of internal/wasm/io/write.go, the host functions of
-- internal/wasm/hostfuncs/resource, and the other side of both in pkg/wasm/convert and pkg/wasm/ocm.
use Prim.Native.Nat.{bit_and, bit_or}
use ocm_controller.Prelude.{
  ℕ, String, Bool, Option, none, some, List, [], ◌∷◌, ◌*◌, ◌/◌, ◌%◌, ◌^◌, ◌-◌, if◌then◌else◌,
  nat_eq,
}
use ocm_controller.Prelude.Outcome.{Error, Result, ok, err, panic, out_of_fuel, Op}
use ocm_controller.Mutation.Services.{AccessSpec}
use ocm_controller.Mutation.Access.{find_reference}
use ocm_controller.Wasm.Errors.{check_code}

-- The memory of a module, with the functions that it exports, and the component version that the host
-- functions read.
pub record Module : Type 1 where
  pub State : Type 0
  pub Bytes : Type 0
  pub Resource : Type 0
  pub Method : Type 0
  pub length : Bytes → ℕ
  pub text_bytes : String → Bytes
  -- Read and Write of the memory, and the calls of malloc and free
  pub read_text : State → ℕ → ℕ → Option String
  pub store : ℕ → Bytes → State → Bool × State
  pub malloc : ℕ → State → Result (List ℕ) × State
  pub free : ℕ → State → Option Error × State
  -- GetResource, AccessMethod with Get, the labels as JSON, and the access specification
  pub get_resource : String → Result Resource
  pub access_method : Resource → Result Method
  pub get_bytes : Method → Result Bytes
  pub labels_json : Resource → Result Bytes
  pub access_of : Resource → Result AccessSpec
  pub access_spec_for_spec : String → Result AccessSpec

-- `ptr<<32 | size` on uint64
unfoldable pub pack : ℕ → ℕ → ℕ
pack ptr size = bit_or (ptr * 2 ^ 32 % 2 ^ 64) size

-- uint32(v >> 32) and uint32(v & 0xffffffff)
unfoldable pub pointer_of : ℕ → ℕ
pointer_of v = v / 2 ^ 32 % 2 ^ 32

unfoldable pub size_of : ℕ → ℕ
size_of v = bit_and v (2 ^ 32 - 1) % 2 ^ 32

-- the error codes of pkg/wasm/errors that the host gives
abbrev pub err_invalid : ℕ
err_invalid = 2

abbrev pub err_memory_allocation : ℕ
err_memory_allocation = 4

abbrev pub err_write : ℕ
err_write = 5

abbrev pub err_resource_not_found : ℕ
err_resource_not_found = 6

abbrev pub err_resource_not_accessible : ℕ
err_resource_not_accessible = 7

abbrev pub err_encoding_json : ℕ
err_encoding_json = 11

abbrev pub unless_failed : Option Error → ℕ → ℕ
unless_failed none v = v
unless_failed (some e) v = err_memory_allocation

-- a code where a call fails
abbrev pub or_code : {S A : Type 0} → Result A → ℕ → (A → Op S ℕ) → Op S ℕ
or_code (ok a) code f s = f a s
or_code (err e) code f s = (ok code, s)
or_code panic code f s = (panic, s)
or_code out_of_fuel code f s = (out_of_fuel, s)

module _ (m : Module) where
  open m use {
    State, Bytes, Resource, length, text_bytes, read_text, store, malloc, free, get_resource,
    access_method, get_bytes, labels_json, access_of, access_spec_for_spec,
  }

  -- once memory was allocated: the write, and the deferred call of free, which has the last word
  unfoldable pub write_at : Bytes → List ℕ → Op State ℕ
  write_at data' [] s = (panic, s)
  write_at data' (ptr ∷ others) s =
      let (stored, s₁) = store (ptr % 2 ^ 32) data' s in
      let (failed, s₂) = free ptr s₁ in
      (ok (unless_failed failed (if stored then pack ptr (length data') else err_write)), s₂)

  unfoldable pub write : Bytes → Op State ℕ
  write data' s =
      let (results, s₁) = malloc (length data') s in
      or_code results err_memory_allocation (write_at data') s₁

  -- the name of a resource, from the memory
  abbrev pub name_or_code : Option String → (String → Op State ℕ) → Op State ℕ
  name_or_code none f s = (ok err_invalid, s)
  name_or_code (some name) f s = f name s

  unfoldable pub host_resource_bytes : ℕ → ℕ → Op State ℕ
  host_resource_bytes offset size s =
      name_or_code (read_text s offset size)
        (λ name. or_code (get_resource name) err_resource_not_found λ res.
          or_code (access_method res) err_resource_not_accessible
            λ meth. or_code (get_bytes meth) err_resource_not_accessible write)
        s

  unfoldable pub host_resource_labels : ℕ → ℕ → Op State ℕ
  host_resource_labels offset size s =
      name_or_code (read_text s offset size)
        (λ name.
          or_code (get_resource name) err_resource_not_accessible
            λ res. or_code (labels_json res) err_encoding_json write)
        s

  unfoldable pub get_reference : ℕ → Resource → Result String
  get_reference fuel res = elim (access_of res) [
    | ok spec ↦ find_reference access_spec_for_spec fuel spec
    | err e ↦ err e
    | panic ↦ panic
    | out_of_fuel ↦ out_of_fuel
  ]

  unfoldable pub host_resource_url : ℕ → ℕ → ℕ → Op State ℕ
  host_resource_url fuel offset size s =
      name_or_code (read_text s offset size)
        (λ name. or_code (get_resource name) err_resource_not_accessible λ res.
          or_code (get_reference fuel res) err_resource_not_accessible
            λ ref. write (text_bytes ref))
        s

-- What the guest makes of a result: an error code, or the pointer and the size that it reads from.
pub data Answer : Type 0 where
  code : ℕ → Answer
  memory : (pointer size : ℕ) → Answer

abbrev pub answer_after : ℕ → ℕ → Answer
answer_after result error =
    if nat_eq error 0 then memory (pointer_of result) (size_of result) else code error

-- GetResourceBytes, GetResourceLabels and GetResourceURL of pkg/wasm/ocm, from the result of the host
unfoldable pub guest_answer : ℕ → Result Answer
guest_answer result = elim (check_code (result ∷ [])) [
  | ok error ↦ ok (answer_after result error)
  | err e ↦ err e
  | panic ↦ panic
  | out_of_fuel ↦ out_of_fuel
]

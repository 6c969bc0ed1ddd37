-- ===== src/Mutation/Access.antt =====
-- The loop over access specifications in performLocalization of
-- controllers/mutation_reconcile_looper.go and in getReference of
-- internal/wasm/hostfuncs/resource/get_resource_url.go, and when it ends.
use Prim.Native.String.{◌++◌}
use ocm_controller.Prelude.{
  ℕ, zero, suc, ◌≡◌, ◌≢◌, ◌↔◌, refl, ap, ◌∙◌, String, none, some, if◌then◌else◌, str_eq, arith,
  eq_iff,
}
use ocm_controller.Prelude.Outcome.{Result, ok, err, panic, out_of_fuel, plain}
use mathlib.Core.Path.{subst}
use ocm_controller.Ocm.Credentials.{◌>>=◌}
use ocm_controller.Mutation.Services.{AccessSpec, oci_artifact, oci_blob, local_blob, other_access}

abbrev if_found : String → Result String → Result String
if_found image again = if str_eq image "" then again else ok image

module _ (access_spec_for_spec : String → Result AccessSpec) where
  -- the loop, `for ref == "" && refErr == nil`, with at most so many rounds
  unfoldable pub find_reference : ℕ → AccessSpec → Result String
  find_reference zero x = out_of_fuel
  find_reference (suc n) (oci_artifact image) =
      let again = find_reference n (oci_artifact image) in if_found image again
  find_reference (suc n) (oci_blob reference digest) = ok (reference ++ ("@" ++ digest))
  find_reference (suc n) (local_blob none) = err (plain "cannot determine image digest")
  find_reference (suc n) (local_blob (some spec)) =
      access_spec_for_spec spec >>= λ x. find_reference n x
  find_reference (suc n) other_access = err (plain "cannot determine access spec type")

  -- Where the global accesses of local blobs lead in so many steps: to an access that is not a local
  -- blob with another one behind it, and not an image without a name.
  pub data IsSettled : ℕ → AccessSpec → Type 0 where
    image : {n : ℕ} (name : String) → name ≢ "" → IsSettled n (oci_artifact name)
    blob : {n : ℕ} (reference digest : String) → IsSettled n (oci_blob reference digest)
    no_global : {n : ℕ} → IsSettled n (local_blob none)
    unknown : {n : ℕ} → IsSettled n other_access
    failed :
        {n : ℕ} (spec : String)
        → ((x : AccessSpec) → access_spec_for_spec spec ≢ ok x)
        → access_spec_for_spec spec ≢ out_of_fuel
        → IsSettled n (local_blob (some spec))
    global :
        {n : ℕ} (spec : String) (x : AccessSpec)
        → access_spec_for_spec spec ≡ ok x
        → IsSettled n x
        → IsSettled (suc n) (local_blob (some spec))

  image_ends :
      (name : String) (again : Result String) → name ≢ "" → if_found name again ≢ out_of_fuel
  image_ends name again h = ground (arith, eq_iff name "")

  bind_ends :
      (r : Result AccessSpec) (f : AccessSpec → Result String)
      → r ≢ out_of_fuel
      → ((x : AccessSpec) → r ≡ ok x → f x ≢ out_of_fuel)
      → (r >>= f) ≢ out_of_fuel
  bind_ends (ok x) f h k = k x refl
  bind_ends (err e) f h k = λ e. cc
  bind_ends panic f h k = λ e. cc
  bind_ends out_of_fuel f h k = absurd (h refl)

  ends-IsSettled : (n : ℕ) (x : AccessSpec) → IsSettled n x → find_reference (suc n) x ≢ out_of_fuel
  unfolding find_reference
  ends-IsSettled n _ (image name h) = image_ends name _ h
  ends-IsSettled n _ (blob reference digest) = λ e. cc
  ends-IsSettled n _ no_global = λ e. cc
  ends-IsSettled n _ unknown = λ e. cc
  ends-IsSettled n _ (failed spec h g) =
      bind_ends (access_spec_for_spec spec) _ g λ x e. absurd (h x e)
  ends-IsSettled (suc n) _ (global spec x h s) =
      bind_ends (access_spec_for_spec spec) _ (λ e. cc)
        λ y e.
          subst (λ z. find_reference (suc n) z ≢ out_of_fuel) {x = x} {y = y} (cc (h, e))
            (ends-IsSettled n x s)

  -- An image without a name is looked at again and again.
  find_reference-endless : (n : ℕ) → find_reference n (oci_artifact "") ≡ out_of_fuel
  unfolding find_reference
  find_reference-endless zero = refl
  find_reference-endless (suc n) = find_reference-endless n

  settled_image :
      (n : ℕ) (name : String) → find_reference n (oci_artifact name) ≢ out_of_fuel → name ≢ ""
  settled_image n name h e =
      h (ap (λ t. find_reference n (oci_artifact t)) e ∙ find_reference-endless n)

  -- one step through a global access, where the rest settles in the rounds that are left
  settled_global :
      (n : ℕ) (spec : String) (r : Result AccessSpec)
      → access_spec_for_spec spec ≡ r
      → (r >>= λ x. find_reference n x) ≢ out_of_fuel
      → ((x : AccessSpec)
          → access_spec_for_spec spec ≡ ok x
          → find_reference n x ≢ out_of_fuel
          → IsSettled n (local_blob (some spec)))
      → IsSettled n (local_blob (some spec))
  settled_global n spec (ok x) e h k = k x e h
  settled_global n spec (err x) e h k = failed spec (λ y g. cc) (λ g. cc)
  settled_global n spec panic e h k = failed spec (λ y g. cc) (λ g. cc)
  settled_global n spec out_of_fuel e h k = absurd (h refl)

  ends_back : (n : ℕ) (x : AccessSpec) → find_reference (suc n) x ≢ out_of_fuel → IsSettled n x
  unfolding find_reference
  ends_back n (oci_artifact name) h = image name (settled_image (suc n) name h)
  ends_back n (oci_blob reference digest) h = blob reference digest
  ends_back n (local_blob none) h = no_global
  ends_back n other_access h = unknown
  ends_back zero (local_blob (some spec)) h =
      settled_global zero spec (access_spec_for_spec spec) refl h (λ x e g. absurd (g refl))
  ends_back (suc n) (local_blob (some spec)) h =
      settled_global (suc n) spec (access_spec_for_spec spec) refl h
        (λ x e g. global spec x e (ends_back n x g))

  -- The loop over access specifications ends exactly for those that settle: those that lead through
  -- `n` global accesses at most to an access that is not a local blob with another one behind it, and
  -- not an image with an empty name, end within `n + 1` rounds, and no others do.
  pub find_reference-IsSettled :
      (n : ℕ) (x : AccessSpec) → (find_reference (suc n) x ≢ out_of_fuel) ↔ IsSettled n x
  find_reference-IsSettled n x = (ends_back n x, ends-IsSettled n x)

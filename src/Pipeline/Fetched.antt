-- ===== src/Pipeline/Fetched.antt =====
-- Where the module of a step is fetched from.
use Prim.Native.String.{◌++◌}
use Prim.Native.Char.{Char}
use Prim.Native.String.append
use text.Mathlib.TextLemmas.{append_assoc}
use ocm_controller.Prelude.{[], ◌∷◌, ap, ◌∙◌, sym, ◌≡◌, refl, String, true, none, some, Option}
use ocm_controller.Prelude.Split.{split, lacks, lacks-append, split-lacks, split-lacks-append}
use ocm_controller.Prelude.Outcome.{Error, Result, ok, err, panic, out_of_fuel, context, context-ok}
use ocm_controller.Ocm.Credentials.{◌>>=◌, bind_ok, ok_bind}
use ocm_controller.Snapshot.Writer.{with_error}
use ocm_controller.Pipeline.Types.{WasmStep}
use ocm_controller.Pipeline.Module.{
  colon, at_sign, part, get_component, get_component_version, get_resource, ModuleServices,
  unless_closed, read_module, find_module, fetch_wasm_blob,
}

-- The name of a module, `component:version@resource`, where none of the three has a separator in it.
pub record IsNamed (step : WasmStep) (component version resource : String) : Type 0 where
  pub named : step.wasm_module ≡ component ++ (":" ++ (version ++ ("@" ++ resource)))
  pub component_colon : lacks colon component ≡ true
  pub component_at : lacks at_sign component ≡ true
  pub version_colon : lacks colon version ≡ true
  pub version_at : lacks at_sign version ≡ true
  pub resource_colon : lacks colon resource ≡ true
  pub resource_at : lacks at_sign resource ≡ true

abbrev colon_char : Char
colon_char = ":"

abbrev at_char : Char
at_char = "@"

-- the two separators, in front of a text
colon-append : (t : String) → ":" ++ t ≡ String.◌∷◌ colon_char t
colon-append t = append.cons colon_char String.[] t ∙ ap (String.◌∷◌ colon_char) (append.nil t)

at-append : (t : String) → "@" ++ t ≡ String.◌∷◌ at_char t
at-append t = append.cons at_char String.[] t ∙ ap (String.◌∷◌ at_char) (append.nil t)

module _ (step : WasmStep) (c v r : String) (n : IsNamed step c v r) where
  after_colon : split colon step.wasm_module ≡ c ∷ split colon (v ++ ("@" ++ r))
  after_colon =
      ap (split colon) (n.named ∙ ap (λ t. c ++ t) (colon-append (v ++ ("@" ++ r))))
      ∙ split-lacks-append colon c colon_char _ refl n.component_colon

  version_at_resource : split colon (v ++ ("@" ++ r)) ≡ (v ++ ("@" ++ r)) ∷ []
  unfolding lacks
  version_at_resource =
      split-lacks colon _
        (lacks-append colon v _ n.version_colon (lacks-append colon "@" r refl n.resource_colon))

  component-IsNamed : get_component step ≡ ok c
  component-IsNamed = ap (part 0) after_colon

  version-IsNamed : get_component_version step ≡ ok v
  version-IsNamed =
      ok_bind (part 1 (split colon step.wasm_module)) _
        (ap (part 1) (after_colon ∙ ap (λ ts. c ∷ ts) version_at_resource))
        (ap (λ t. part 0 (split at_sign (v ++ t))) (at-append r)
          ∙ ap (part 0) (split-lacks-append at_sign v at_char r refl n.version_at))

  before_at : lacks at_sign (c ++ (":" ++ v)) ≡ true
  unfolding lacks
  before_at = lacks-append at_sign c _ n.component_at (lacks-append at_sign ":" v refl n.version_at)

  resource-IsNamed : get_resource step ≡ ok r
  resource-IsNamed =
      ap (λ t. part 1 (split at_sign t))
        (n.named
          ∙ ap (λ t. c ++ (":" ++ (v ++ t))) (at-append r)
          ∙ ap (λ t. c ++ t) (sym (append_assoc ":" v _))
          ∙ sym (append_assoc c (":" ++ v) _))
      ∙ ap (part 1) (
          split-lacks-append at_sign (c ++ (":" ++ v)) at_char r refl before_at
          ∙ ap (λ ts. (c ++ (":" ++ v)) ∷ ts) (split-lacks at_sign r n.resource_at))

-- The blob is that of the resource `r` in the version `v` of the component `c`, in the registry of the
-- step, and everything that was opened is closed without an error.
pub record IsFetched {Cluster : Type 0} (s : ModuleServices Cluster) (k : Cluster)
    (registry : String) (c v r blob : String) : Type 0 where
  pub repository : s.Repository
  pub version : s.Version
  pub res : s.Res
  pub meth : s.Method
  pub opened : s.repository_for_spec k registry ≡ ok repository
  pub found : s.lookup_component_version repository c v ≡ ok version
  pub has_resource : s.resource_of version r ≡ ok res
  pub accessed : s.access_method res ≡ ok meth
  pub read : s.get meth ≡ ok blob
  pub method_closed : s.close_method meth ≡ none
  pub version_closed : s.close_version version ≡ none
  pub repository_closed : s.close_repository repository ≡ none

with_error-ok :
    (e : Option Error) (x : Result String) {a : String}
    → with_error e x ≡ ok a
    → (e ≡ none) × (x ≡ ok a)
with_error-ok none x h = (refl, h)
with_error-ok (some e) (ok a) h = cc
with_error-ok (some e) (err x) h = cc
with_error-ok (some e) panic h = cc
with_error-ok (some e) out_of_fuel h = cc

unless_closed-ok :
    (e : Option Error) (blob : String) {a : String}
    → unless_closed e blob ≡ ok a
    → (e ≡ none) × (blob ≡ a)
unless_closed-ok none blob h = (refl, cc)
unless_closed-ok (some e) blob h = cc

-- a step of which the value is known
known_ok :
    {A : Type 0} (x : Result A) (f : A → Result String) {a : A} {b : String}
    → x ≡ ok a
    → (x >>= f) ≡ ok b
    → f a ≡ ok b
known_ok x f h g = sym (ap (λ y. y >>= f) h) ∙ g

-- a step under an error's context
step_ok :
    {A : Type 0} (msg : String) (x : Result A) (f : A → Result String) {b : String}
    → (context msg x >>= f) ≡ ok b
    → (a : A) × (x ≡ ok a) × (f a ≡ ok b)
step_ok msg x f h = let (a, e, g) = bind_ok (context msg x) f h in (a, context-ok msg x e, g)

-- What fetchWasmBlob gives for a module that is named by a component, a version and a resource without
-- a colon or an at sign is the blob of that resource in that version of that component, looked up in
-- the registry of the step, and nothing failed to close.
pub fetch_wasm_blob-IsFetched :
    {Cluster : Type 0} (s : ModuleServices Cluster) (k : Cluster) (step : WasmStep)
    (c v r blob : String)
    → IsNamed step c v r
    → fetch_wasm_blob s k step ≡ ok blob
    → IsFetched s k step.registry c v r blob
unfolding fetch_wasm_blob find_module read_module
fetch_wasm_blob-IsFetched s k step c v r blob n h =
    let (repo, opened, h₁) = step_ok _ (s.repository_for_spec k step.registry) _ h in
    let (repo_closed, h₂) = with_error-ok (s.close_repository repo) _ h₁ in
    let h₃ = known_ok (get_component step) _ (component-IsNamed step c v r n) h₂ in
    let h₄ = known_ok (get_component_version step) _ (version-IsNamed step c v r n) h₃ in
    let (version, found, h₅) = step_ok _ (s.lookup_component_version repo c v) _ h₄ in
    let (version_closed, h₆) = with_error-ok (s.close_version version) _ h₅ in
    let h₇ = known_ok (get_resource step) _ (resource-IsNamed step c v r n) h₆ in
    let (res, has, h₈) = step_ok _ (s.resource_of version r) _ h₇ in
    let (meth, accessed, h₉) = step_ok _ (s.access_method res) _ h₈ in
    let (data', read, h₁₀) = step_ok _ (s.get meth) _ h₉ in
    let (closed, same) = unless_closed-ok (s.close_method meth) data' h₁₀ in
    record {
      repository = repo;
      version = version;
      res = res;
      meth = meth;
      opened = opened;
      found = found;
      has_resource = has;
      accessed = accessed;
      read = read ∙ ap ok same;
      method_closed = closed;
      version_closed = version_closed;
      repository_closed = repo_closed;
    }

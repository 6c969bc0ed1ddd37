-- ===== src/Pipeline/Module.antt =====
-- The module of a step: GetComponent, GetComponentVersion and GetResource of WasmStep in
-- api/v1alpha1/resourcepipeline_types.go, and fetchWasmBlob of
-- controllers/resourcepipeline_controller.go.
use ocm_controller.Prelude.{ℕ, zero, suc, String, Option, none, some, List, [], ◌∷◌}
use ocm_controller.Prelude.Split.{split}
use ocm_controller.Prelude.Outcome.{Error, Result, ok, err, panic, wrap, context}
use ocm_controller.Ocm.Credentials.{◌>>=◌}
use ocm_controller.Snapshot.Writer.{with_error}
use ocm_controller.Status.Runtime.{Runtime}
use ocm_controller.Pipeline.Types.{WasmStep, PipelineServices}

abbrev pub colon : ℕ
colon = b':'

abbrev pub at_sign : ℕ
at_sign = b'@'

-- an element of a slice
abbrev pub part : ℕ → List String → Result String
part n [] = panic
part zero (t ∷ ts) = ok t
part (suc n) (t ∷ ts) = part n ts

abbrev pub get_component : WasmStep → Result String
get_component step = part 0 (split colon step.wasm_module)

abbrev pub get_component_version : WasmStep → Result String
get_component_version step = do
  p1 ← part 1 (split colon step.wasm_module)
  part 0 (split at_sign p1)

abbrev pub get_resource : WasmStep → Result String
get_resource step = part 1 (split at_sign step.wasm_module)

-- What fetchWasmBlob calls of the OCM library, with the errors of Close.
pub record ModuleServices (Cluster : Type 0) : Type 1 where
  pub Repository : Type 0
  pub Version : Type 0
  pub Res : Type 0
  pub Method : Type 0
  pub repository_for_spec : Cluster → String → Result Repository
  pub lookup_component_version : Repository → String → String → Result Version
  pub resource_of : Version → String → Result Res
  pub access_method : Res → Result Method
  pub get : Method → Result String
  pub close_method : Method → Option Error
  pub close_version : Version → Option Error
  pub close_repository : Repository → Option Error

-- `if err := meth.Close(); err != nil`
abbrev pub unless_closed : Option Error → String → Result String
unless_closed none blob = ok blob
unless_closed (some e) blob = err (wrap "failed to close access method for step" e)

module _ {Cluster : Type 0} (s : ModuleServices Cluster) where
  open s use {
    Repository, Version, Res, Method, repository_for_spec, lookup_component_version, resource_of,
    access_method, get, close_method, close_version, close_repository,
  }

  -- from the resource on
  unfoldable pub read_module : Version → WasmStep → Result String
  read_module version step = do
    name ← get_resource step
    res ← context "failed to get resource for step" (resource_of version name)
    meth ← context "failed to run access method for step" (access_method res)
    blob ← context "failed to get resource data for step" (get meth)
    unless_closed (close_method meth) blob

  -- after the repository is opened
  unfoldable pub find_module : Repository → WasmStep → Result String
  find_module repo step = do
    component ← get_component step
    name ← get_component_version step
    version ←
        context "failed to lookup verions for step" (lookup_component_version repo component name)
    with_error (close_version version) (read_module version step)

  -- The repository and the version are closed by deferred functions, whose errors are joined.
  unfoldable pub fetch_wasm_blob : Cluster → WasmStep → Result String
  fetch_wasm_blob k step = do
    repo ← context "failed to get repository for step" (repository_for_spec k step.registry)
    with_error (close_repository repo) (find_module repo step)

-- the controller with its own fetchWasmBlob
abbrev pub with_modules :
    (r : Runtime) (s : PipelineServices r) → ModuleServices s.Cluster → PipelineServices r
with_modules r s modules = record s { fetch_wasm_blob = fetch_wasm_blob modules }

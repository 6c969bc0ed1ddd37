-- ===== src/Examples/Modules.antt =====
-- The module of a step, in a registry of texts.
use ocm_controller.Prelude.{◌≡◌, refl, none, [], some, String}
use ocm_controller.Prelude.Split.{split, lacks}
use ocm_controller.Prelude.Outcome.{ok, panic}
use ocm_controller.Pipeline.Types.{WasmStep, PipelineServices}
use ocm_controller.Pipeline.Module.{
  get_component_version, ModuleServices, read_module, find_module, fetch_wasm_blob, with_modules,
}
use ocm_controller.Pipeline.Fetched.{IsNamed, IsFetched, fetch_wasm_blob-IsFetched}
use ocm_controller.Examples.Conditions.{conditions}
use ocm_controller.Examples.Pipelines.{services}

abbrev registry : ModuleServices services.Cluster
registry = record {
  Repository = String;
  Version = String;
  Res = String;
  Method = String;
  repository_for_spec = λ k url. ok url;
  lookup_component_version = λ repo component version. ok component;
  resource_of = λ version name. ok name;
  access_method = λ res. ok res;
  get = λ meth. ok "blob";
  close_method = λ meth. none;
  close_version = λ version. none;
  close_repository = λ repo. none;
}

abbrev step : WasmStep
step = record {
  name = "kustomize";
  wasm_module = "ocm.software/modules:v1.0.0@kustomizer";
  registry = "ghcr.io/open-component-model";
  values = none;
  timeout = some 30;
}

step-IsNamed : IsNamed step "ocm.software/modules" "v1.0.0" "kustomizer"
unfolding lacks
step-IsNamed = record {
  named = refl;
  component_colon = refl;
  component_at = refl;
  version_colon = refl;
  version_at = refl;
  resource_colon = refl;
  resource_at = refl;
}

abbrev controller : PipelineServices conditions
controller = with_modules conditions services registry

step_fetched : controller.fetch_wasm_blob [] step ≡ ok "blob"
unfolding fetch_wasm_blob find_module read_module split
step_fetched = refl

-- A module without a colon in its name has no version.
unnamed_panics : get_component_version (record step { wasm_module = "modules" }) ≡ panic
unfolding split
unnamed_panics = refl

fetch_wasm_blob-IsFetched_example :
    IsFetched registry [] "ghcr.io/open-component-model" "ocm.software/modules" "v1.0.0"
      "kustomizer" "blob"
fetch_wasm_blob-IsFetched_example =
    fetch_wasm_blob-IsFetched registry [] step "ocm.software/modules" "v1.0.0" "kustomizer" "blob"
      step-IsNamed step_fetched

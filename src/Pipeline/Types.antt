-- ===== src/Pipeline/Types.antt =====
-- api/v1alpha1/resourcepipeline_types.go, and what the ResourcePipeline controller calls.
use ocm_controller.Prelude.{ℕ, String, Bool, Option, List}
use ocm_controller.Prelude.Outcome.{Error, Result, Op}
use ocm_controller.Status.Runtime.{Runtime}
use ocm_controller.Status.World.{World}
use ocm_controller.Component.Names.{NamespacedName, Identity}
use ocm_controller.ComponentVersion.Types.{ComponentVersion}
use ocm_controller.ComponentVersion.Services.{Stored}
use ocm_controller.Resource.Types.{SourceRef}
use ocm_controller.Pipeline.Values.{Value, Fields}

pub record WasmStep : Type 0 where
  pub name : String
  pub wasm_module : String
  pub registry : String
  -- the raw JSON of spec.values
  pub values : Option String
  -- none is a nil pointer
  pub timeout : Option ℕ

pub record ResourcePipeline : Type 0 where
  pub key : NamespacedName
  pub interval : ℕ
  pub suspend : Bool
  pub source_ref : SourceRef
  pub parameters : Option String
  -- spec.pipelineSpec, a pointer
  pub steps : Option (List WasmStep)
  pub snapshot_name : String
  pub latest_snapshot_digest : String

pub record PipelineServices (r : Runtime) : Type 1 where
  -- the state of the cluster, the cache, the file system and the WASM runtime
  pub Cluster : Type 0
  pub Octx : Type 0
  pub Access : Type 0
  pub Res : Type 0
  pub get_object : Cluster → NamespacedName → Result (Stored r.Conditions ResourcePipeline)
  pub patch : World r.Conditions Cluster ResourcePipeline → Option Error × Cluster
  pub random_string : Cluster → Result String
  pub get_component_version_object :
      Cluster → NamespacedName → Result (Stored r.Conditions ComponentVersion)
  -- Contract of pkg/ocm
  pub create_authenticated_ocm_context : Cluster → ComponentVersion → Result Octx
  pub get_component_version : Cluster → Octx → ComponentVersion → String → String → Result Access
  pub get_resource : Access → String → Result Res
  -- os.MkdirTemp, the file system over it, and the download into it
  pub make_temp : Op Cluster String
  pub new_projection : String → Op Cluster (Unit {0})
  pub download : Res → String → Op Cluster (Unit {0})
  -- json.Unmarshal of parameters and values, and yaml.Marshal
  pub parse_parameters : String → Result (List (String × Value))
  pub parse_values : String → Result Fields
  pub print_values : Fields → Result String
  -- the WASM runtime: Init with component and directory, and Call under the timeout of a step
  pub init_runtime : Access → String → Op Cluster (Unit {0})
  pub fetch_wasm_blob : Cluster → WasmStep → Result String
  pub call : ℕ → String → String → String → Op Cluster (Unit {0})
  -- Writer of pkg/snapshot, for an object, a directory and an identity
  pub write_snapshot : ResourcePipeline → String → Identity → Op Cluster String

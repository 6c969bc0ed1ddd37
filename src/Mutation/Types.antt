-- ===== src/Mutation/Types.antt =====
-- api/v1alpha1/mutation_types.go: the objects whose resources are mutated, Localization and
-- Configuration. Their Go types have the same fields, and differ in the key of GetVID.
use ocm_controller.Prelude.{ℕ, String, Bool, Option, List, [], ◌∷◌}
use ocm_controller.Component.Names.{NamespacedName}
use ocm_controller.FluxDeployer.Types.{ObjectReference}
use ocm_controller.Ocm.Fetch.{ResourceReference}

-- v1alpha1.ObjectReference, with the resource that it may name
pub record DataReference : Type 0 where
  pub ref : ObjectReference
  pub resource_ref : Option ResourceReference

pub record ConfigMapSource : Type 0 where
  pub name : String
  pub data_key : String
  pub sub_path : String

pub record FluxValuesSource : Type 0 where
  pub source_ref : ObjectReference
  pub path : String
  pub sub_path : String

pub record ValuesSource : Type 0 where
  pub flux_source : Option FluxValuesSource
  pub config_map_source : Option ConfigMapSource

-- PatchStrategicMerge: spec.patchStrategicMerge.source and target
pub record PatchStrategicMerge : Type 0 where
  pub source_ref : ObjectReference
  pub source_path : String
  pub target_path : String

pub data MutationKind : Type 0 where
  localizes configures : MutationKind

pub record MutationObject : Type 0 where
  pub kind : MutationKind
  pub key : NamespacedName
  -- metadata.resourceVersion
  pub resource_version : String
  -- MutationSpec
  pub interval : ℕ
  pub source_ref : DataReference
  pub config_ref : Option DataReference
  -- the JSON text of spec.values
  pub values : Option String
  pub values_from : Option ValuesSource
  pub patch : Option PatchStrategicMerge
  pub suspend : Bool
  -- MutationStatus
  pub latest_snapshot_digest : String
  pub latest_source_version : String
  pub latest_config_version : String
  pub latest_patch_source_version : String
  pub snapshot_name : String

abbrev pub vid_key : MutationKind → String
vid_key localizes = "delivery.ocm.software/localization_digest"
vid_key configures = "delivery.ocm.software/configuration_digest"

-- GetVID
unfoldable pub get_vid : MutationObject → List (String × String)
get_vid obj = (vid_key obj.kind, obj.latest_snapshot_digest) ∷ []

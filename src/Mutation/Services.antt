-- ===== src/Mutation/Services.antt =====
-- pkg/configdata, and what the mutation looper calls and does not implement: the API server, the OCM
-- client and the cache (interfaces of pkg/ocm and pkg/cache), the writer of snapshots (the interface
-- of pkg/snapshot), the file system, and the libraries for archives, YAML, spiff and references.
use ocm_controller.Prelude.{ℕ, String, Bool, Option, List}
use ocm_controller.Prelude.Outcome.{Result, Op}
use ocm_controller.Status.Runtime.{Runtime}
use ocm_controller.Component.Names.{NamespacedName, Identity}
use ocm_controller.ComponentVersion.Types.{ComponentVersion}
use ocm_controller.ComponentVersion.Services.{Stored}
use ocm_controller.Snapshot.Types.{Snapshot}
use ocm_controller.FluxDeployer.Types.{ObjectReference, Source}
use ocm_controller.Ocm.Fetch.{ResourceReference}
use ocm_controller.Mutation.Types.{MutationObject}
use ocm_controller.Mutation.Values.{TextMap}

pub record Mapping : Type 0 where
  pub path : String
  pub transform : String

-- `resource` is the name of the ResourceItem, the only part that is read.
pub record LocalizationRule : Type 0 where
  pub resource : String
  pub file : String
  pub registry : String
  pub mapping : Option Mapping
  pub repository : String
  pub image : String
  pub tag : String

-- `value` is the JSON text of the value.
pub record ConfigRule : Type 0 where
  pub value : String
  pub path : String
  pub file : String

-- `defaults` and `schema` are the JSON texts of these fields.
pub record ConfigData : Type 0 where
  pub defaults : String
  pub schema : String
  pub rules : List ConfigRule
  pub localization : List LocalizationRule

-- the access specifications of the OCM library, by the types that the loop over them tells apart
pub data AccessSpec : Type 0 where
  oci_artifact : (image_reference : String) → AccessSpec
  oci_blob : (reference digest : String) → AccessSpec
  -- with the JSON text of its global access, which may be nil
  local_blob : (global_access : Option String) → AccessSpec
  other_access : AccessSpec

-- what name.ParseReference reads
pub record ImageName : Type 0 where
  pub registry : String
  pub repository : String
  pub full_name : String
  pub identifier : String

-- what a substitution puts in: a text, or a JSON text
pub data Substitute : Type 0 where
  put_text put_json : String → Substitute

pub record Artifact : Type 0 where
  pub url : String
  pub revision : String
  pub digest : String

pub record GitSource : Type 0 where
  pub key : NamespacedName
  pub artifact : Option Artifact

-- the Kustomization that a patch is built with
pub record Kustomization : Type 0 where
  pub resources : List String
  pub patches : List String

pub record MutationServices (r : Runtime) : Type 1 where
  -- the state of the cluster, of the cache and of the file system
  pub Cluster : Type 0
  pub Octx : Type 0
  -- ocm.ComponentVersionAccess and ResourceAccess, and a component descriptor object
  pub Access : Type 0
  pub Resource : Type 0
  pub Descriptor : Type 0
  -- the content of a reader, and the bytes read from it
  pub Data : Type 0
  pub Bytes : Type 0
  -- localize.Substitutions
  pub Rules : Type 0
  -- client.Get and the dynamic client, with status.snapshotName of what it returns
  pub get_source : Cluster → ObjectReference → Result Source
  pub get_snapshot : Cluster → NamespacedName → Result (Stored r.Conditions Snapshot)
  pub get_component_version :
      Cluster → NamespacedName → Result (Stored r.Conditions ComponentVersion)
  pub get_git_repository : Cluster → NamespacedName → Result GitSource
  pub get_config_map : Cluster → NamespacedName → Result (List (String × String))
  -- Contract of pkg/ocm, Cache of pkg/cache, Writer of pkg/snapshot
  pub create_authenticated_ocm_context : Cluster → ComponentVersion → Result Octx
  pub get_resource : Octx → ComponentVersion → Option ResourceReference → Op Cluster Data
  pub get_component_version_access :
      Cluster → Octx → ComponentVersion → String → String → Result Access
  pub fetch_data_by_digest : Cluster → String → String → Result Data
  pub write_snapshot : MutationObject → String → Identity → Op Cluster String
  pub hash : Identity → Result ℕ
  -- compression.AutoDecompress and io.ReadAll, and isTar
  pub auto_decompress : Data → Result Data
  pub read_all : Data → Result Bytes
  pub size : Bytes → ℕ
  pub is_tar : Bytes → Bool
  -- osfs.NewTempFileSystem, os.MkdirTemp, os.RemoveAll, and other uses of the file system
  pub new_temp_fs : Op Cluster String
  pub mkdir_temp : Op Cluster String
  pub remove_all : String → Cluster → Cluster
  pub extract_tar : String → Bytes → Op Cluster (Unit {0})
  -- filepath.Join, and securejoin.SecureJoin
  pub join_path : String → String → String
  pub secure_join : String → String → Result String
  pub read_file : Cluster → String → Result Bytes
  pub write_file : String → Bytes → Op Cluster (Unit {0})
  pub remove_file : String → Op Cluster (Unit {0})
  pub base_dir : String → String
  -- the fetcher of archives, with the URL and the digest
  pub fetch_archive : String → String → String → Op Cluster (Unit {0})
  -- strategic merge patches: gzip, tar, and kustomize
  pub gzip : Bytes → Result Bytes
  pub untar : Bytes → String → Op Cluster (Unit {0})
  pub marshal_kustomization : Kustomization → Result Bytes
  pub secure_build : String → String → Op Cluster Bytes
  -- YAML and JSON
  pub config_data : Bytes → Result ConfigData
  pub text_bytes : String → Bytes
  -- a map of YAML, which `null` makes nil
  pub yaml_map : Bytes → Result (Option TextMap)
  pub map_json : TextMap → Result String
  -- a JSON object, by the JSON texts of its fields; `null` sets the Go map to nil
  pub object_fields : String → Result (Option (List (String × String)))
  pub rules_json : Rules → String
  pub marshal_fields : List (String × String) → Result String
  -- localize.Substitutions.Add, with the name, the file and the path, and localize.Substitute
  pub no_rules : Rules
  pub add_rule : Rules → String → String → String → Substitute → Result Rules
  pub is_empty : Rules → Bool
  pub substitute : Rules → String → Op Cluster (Unit {0})
  -- spiff: ValidateByScheme, and CascadeWith in private mode followed by the decoding of its result
  pub validate_by_scheme : String → String → Result (Unit {0})
  pub cascade_with : String → Result Rules
  -- ResolveResourceReference, Access, AccessSpecForSpec and name.ParseReference
  pub resolve_resource : Access → String → List Identity → Result Resource
  pub access_of : Resource → Result AccessSpec
  pub access_spec_for_spec : Octx → String → Result AccessSpec
  pub parse_reference : String → Result ImageName
  -- compileMapping, as `with_cue` of Mapping fills it
  pub compile_mapping : Cluster → ComponentVersion → String → Result String

-- ===== src/Mutation/Sources.antt =====
-- Where controllers/mutation_reconcile_looper.go takes its data from: getData, getIdentity,
-- getSource, getValues and the functions below them. Closing a reader is not modelled.
use ocm_controller.Prelude.{
  String, Bool, Option, none, some, [], ◌∷◌, if◌then◌else◌, str_eq, lookup,
}
use ocm_controller.Prelude.Outcome.{
  Result, ok, err, panic, out_of_fuel, plain, wrap, is_not_found, context, Op, reading, in_context,
  lift, pure, ◌>>=◌,
}
use ocm_controller.Status.Runtime.{Runtime, ready}
use ocm_controller.Component.Names.{Identity, construct_repository_name}
use ocm_controller.Component.References.{ref_version, descriptor_ref}
use ocm_controller.ComponentVersion.Types.{ComponentVersion}
use ocm_controller.Snapshot.Types.{Snapshot}
use ocm_controller.FluxDeployer.Types.{ObjectReference, Source}
use ocm_controller.Ocm.Credentials.{in_namespace}
use ocm_controller.Ocm.Fetch.{ResourceReference}
use ocm_controller.Mutation.Values.{TextMap, no_texts, extract_subpath}
use ocm_controller.Mutation.Types.{
  DataReference, MutationObject, ValuesSource, ConfigMapSource, FluxValuesSource,
}
use ocm_controller.Mutation.Services.{MutationServices, GitSource, Artifact}

abbrev pub is_component_version : DataReference → Bool
is_component_version obj = str_eq obj.ref.kind "ComponentVersion"

abbrev pub snapshot_name_in : Source → Result String
snapshot_name_in (ok (some name)) = ok name
snapshot_name_in (ok none) = err (plain "snapshot name not found in status")
snapshot_name_in (err e) = err (wrap "failed get the get snapshot" e)
snapshot_name_in panic = panic
snapshot_name_in out_of_fuel = out_of_fuel

-- a pointer that is read without a test
abbrev pub deref : {A : Type 0} → Option A → Result A
deref none = panic
deref (some a) = ok a

-- the error of a snapshot that is not there is not wrapped
abbrev pub wrap_unless_missing : {A : Type 0} → Result A → Result A
wrap_unless_missing (err e) =
    if is_not_found e then err e else err (wrap "failed to get component object" e)
wrap_unless_missing r = r

module _ (r : Runtime) (s : MutationServices r) where
  open s use {
    Cluster, Bytes, get_source, get_snapshot, get_component_version, get_git_repository,
    get_config_map, create_authenticated_ocm_context, get_resource, fetch_data_by_digest, hash,
    auto_decompress, read_all, mkdir_temp, secure_join, read_file, fetch_archive, text_bytes,
    yaml_map, map_json,
  }

  unfoldable pub get_snapshot_bytes : Snapshot → Op Cluster Bytes
  get_snapshot_bytes snapshot = do
    name ←
        lift (context "failed to construct name" (construct_repository_name hash snapshot.identity))
    reader ←
        in_context "failed to fetch data"
          (reading (λ k. fetch_data_by_digest k name snapshot.last_reconciled_digest))
    uncompressed ← lift (context "failed to auto decompress" (auto_decompress reader))
    lift (read_all uncompressed)

  unfoldable pub fetch_data_from_object_reference : DataReference → Op Cluster Bytes
  fetch_data_from_object_reference obj = do
    src ← reading (λ k. get_source k obj.ref)
    name ← lift (snapshot_name_in src)
    snapshot ←
        reading (λ k. wrap_unless_missing (get_snapshot k (in_namespace obj.ref.namespace name)))
    (if r.is_false snapshot.conditions ready
        then lift (err (plain "snapshot not ready"))
        else get_snapshot_bytes snapshot.obj)

  unfoldable pub fetch_data_from_component_version : DataReference → Op Cluster Bytes
  fetch_data_from_component_version obj = do
    cv ← reading (λ k. get_component_version k (in_namespace obj.ref.namespace obj.ref.name))
    octx ←
        in_context "failed to create authenticated client"
          (reading (λ k. create_authenticated_ocm_context k cv.obj))
    resource ←
        in_context "failed to fetch resource from component version"
          (get_resource octx cv.obj obj.resource_ref)
    uncompressed ← lift (context "failed to auto decompress" (auto_decompress resource))
    lift (context "failed to read resource data" (read_all uncompressed))

  unfoldable pub get_data : DataReference → Op Cluster Bytes
  get_data obj =
      if is_component_version obj
      then in_context "failed to fetch resource data from resource ref"
          (fetch_data_from_component_version obj)
      else in_context "failed to fetch resource data from snapshot"
          (fetch_data_from_object_reference obj)

  abbrev pub resource_identity : ComponentVersion → ResourceReference → Identity
  resource_identity cv resource =
      ("component-name", (descriptor_ref cv.component_descriptor).name)
      ∷ ("component-version", ref_version cv.component_descriptor)
      ∷ ("resource-name", resource.name)
      ∷ ("resource-version", resource.version)
      ∷ []

  unfoldable pub identity_of_resource : DataReference → Op Cluster Identity
  identity_of_resource obj = do
    cv ← reading (λ k. get_component_version k (in_namespace obj.ref.namespace obj.ref.name))
    resource ← lift (deref obj.resource_ref)
    pure (resource_identity cv.obj resource)

  unfoldable pub identity_of_snapshot : DataReference → Op Cluster Identity
  identity_of_snapshot obj = do
    src ← reading (λ k. get_source k obj.ref)
    name ← lift (snapshot_name_in src)
    snapshot ← reading (λ k. get_snapshot k (in_namespace obj.ref.namespace name))
    pure snapshot.obj.identity

  unfoldable pub get_identity : DataReference → Op Cluster Identity
  get_identity obj =
      if is_component_version obj then identity_of_resource obj else identity_of_snapshot obj

  unfoldable pub get_component_version_of : DataReference → Op Cluster ComponentVersion
  get_component_version_of obj =
      if is_component_version obj
      then (do
        cv ← reading (λ k. get_component_version k (in_namespace obj.ref.namespace obj.ref.name))
        pure cv.obj)
      else lift (err (plain "cannot retrieve component version for snapshot"))

  -- getSource: only Git repositories are supported
  unfoldable pub get_git_source : ObjectReference → Op Cluster GitSource
  get_git_source ref =
      if str_eq ref.kind "GitRepository"
      then in_context "unable to get source"
          (reading (λ k. get_git_repository k (in_namespace ref.namespace ref.name)))
      else lift (err (plain "source kind not supported"))

  abbrev pub found_at : Option TextMap → Result (Option TextMap)
  found_at (some m) = ok (some m)
  found_at none = err (plain "subPath not found")

  -- a lookup in a nil map finds nothing
  abbrev pub read_map : Option TextMap → TextMap
  read_map none = no_texts
  read_map (some m) = m

  abbrev pub at_subpath : String → Option TextMap → Result (Option TextMap)
  at_subpath sub_path data' =
      if str_eq sub_path "" then ok data' else found_at (extract_subpath (read_map data') sub_path)

  abbrev pub content_at : Option String → Result String
  content_at (some content) = ok content
  content_at none = err (plain "key not found in configmap")

  unfoldable pub from_config_map_source : ConfigMapSource → String → Op Cluster (Option TextMap)
  from_config_map_source source namespace = do
    fields ←
        in_context "failed to get configmap"
          (reading (λ k. get_config_map k (in_namespace namespace source.name)))
    content ← lift (content_at (lookup source.data_key fields))
    data' ← lift (context "failed to unmarshal values" (yaml_map (text_bytes content)))
    lift (at_subpath source.sub_path data')

  abbrev pub artifact_of : Option Artifact → Result Artifact
  artifact_of (some artifact) = ok artifact
  artifact_of none = err (plain "could not get artifact from source")

  unfoldable pub from_flux_source : FluxValuesSource → Op Cluster (Option TextMap)
  from_flux_source source = do
    git ← in_context "could not get values from source" (get_git_source source.source_ref)
    dir ← in_context "could not create temporary directory" mkdir_temp
    artifact ← lift (artifact_of git.artifact)
    fetched ←
        in_context "could not fetch values artifact from source"
          (fetch_archive artifact.url artifact.digest dir)
    path ← lift (context "could not construct values file path" (secure_join dir source.path))
    content ← in_context "could not read values file" (reading (λ k. read_file k path))
    data' ← lift (context "failed to unmarshal values" (yaml_map content))
    lift (at_subpath source.sub_path data')

  -- from `if data != nil` on
  abbrev pub as_json : Option TextMap → Op Cluster String
  as_json none = lift (err (plain "no values found"))
  as_json (some data') = lift (context "failed to marshal values" (map_json data'))

  -- the values of a source: the first one that is given
  unfoldable pub values_from : ValuesSource → String → Op Cluster String
  values_from source namespace = elim source.flux_source [
    | some flux ↦ (do
      data' ← in_context "failed to get values from flux source" (from_flux_source flux)
      as_json data')
    | none ↦ elim source.config_map_source [
      | some config ↦ (do
        data' ←
            in_context "failed to get values from configmap source"
              (from_config_map_source config namespace)
        as_json data')
      | none ↦ as_json none
    ]
  ]

  unfoldable pub get_values : MutationObject → Op Cluster String
  get_values obj = elim obj.values [
    | some values ↦ pure values
    | none ↦ (do source ← lift (deref obj.values_from); values_from source obj.key.namespace)
  ]

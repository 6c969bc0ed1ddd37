-- ===== src/Ocm/Fetch.antt =====
-- The parts of GetResource that read only, and fetchResourceReader and fetchHelmChartResource of pkg/ocm/ocm.go. The errors of the
-- deferred Close calls are not modelled: they are joined to a variable that is not the result.
use ocm_controller.Prelude.{String, Option, List, [], ◌∷◌, if◌then◌else◌, str_eq, insert}
use ocm_controller.Prelude.Outcome.{Result, ok, err, plain, context}
use ocm_controller.Component.Names.{Identity, construct_repository_name}
use ocm_controller.Component.References.{get_component_descriptor}
use ocm_controller.ComponentVersion.Types.{ComponentVersion}
use ocm_controller.Ocm.Library.{Library, Descriptor}
use ocm_controller.Ocm.Credentials.{◌>>=◌, found_or}
use ocm_controller.Ocm.Versions.{get_component_version}

-- v1alpha1.ResourceReference
pub record ResourceReference : Type 0 where
  pub name : String
  pub version : String
  pub extra_identity : Identity
  pub reference_path : List Identity

-- registry.ChartLayerMediaType of Helm
abbrev pub chart_media_type : String
chart_media_type = "application/vnd.cncf.helm.chart.content.v1.tar+gzip"

abbrev pub version_or_latest : ResourceReference → String
version_or_latest resource = if str_eq resource.version "" then "latest" else resource.version

-- `for k, v := range extra { identity[k] = v }`
abbrev pub add_all : Identity → Identity → Identity
add_all [] identity = identity
add_all ((k, v) ∷ extra) identity = add_all extra (insert k v identity)

-- the identity of a resource in a component, as GetResource and getIdentity build it
abbrev pub resource_identity : Descriptor → ResourceReference → String → Identity
resource_identity cd resource version = add_all resource.extra_identity (
    ("component-name", cd.name)
    ∷ ("component-version", cd.version)
    ∷ ("resource-name", resource.name)
    ∷ ("resource-version", version)
    ∷ [])

module _ (l : Library) where
  open l use {
    Cluster, Octx, Access, Resource, Data, get_descriptor, resolve_reference, resource_type,
    access_method, reader, download, read_file, auto_decompress, hash,
  }

  unfoldable pub fetch_helm_chart_resource : Cluster → Resource → Access → Result (Data × String)
  fetch_helm_chart_resource k res cva = do
    chart ← context "failed to download helm chart content" (download k cva res)
    content ← context "failed to find the downloaded file" (read_file k chart)
    ok (content, chart_media_type)

  unfoldable pub fetch_resource_reader : Cluster → Resource → Access → Result (Data × String)
  fetch_resource_reader k res cva =
      if str_eq (resource_type res) "helmChart" then fetch_helm_chart_resource k res cva else do
        method ← context "failed to fetch access spec" (access_method k res)
        data' ← context "failed to fetch reader" (reader k method)
        ok (data', "")

  -- the name under which a resource is cached
  unfoldable pub cache_name : Cluster → ComponentVersion → ResourceReference → Result String
  cache_name k cv resource = do
    found ← context "failed to find component descriptor for reference" (
        get_component_descriptor (get_descriptor k) resource.reference_path cv.component_descriptor)
    cd ← found_or (err (plain "component descriptor not found for reference path")) found
    context "failed to construct name" (
        construct_repository_name hash (resource_identity cd resource (version_or_latest resource)))

  -- the content of a resource that is not cached, and its media type
  unfoldable pub fetch_uncached :
      Cluster → Option Octx → ComponentVersion → ResourceReference → Result (Data × String)
  fetch_uncached k octx cv resource = do
    cva ←
        context "failed to get component Version"
          (get_component_version l k octx cv cv.spec.component cv.reconciled_version)
    res ←
        context "failed to resolve reference path to resource"
          (resolve_reference k cva resource.name resource.reference_path)
    fetched ← context "failed to fetch reader for resource" (fetch_resource_reader k res cva)
    content ← context "failed to autodecompress content" (auto_decompress fetched.0)
    ok (content, fetched.1)

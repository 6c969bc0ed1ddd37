-- ===== src/Ocm/Library.antt =====
-- What pkg/ocm/ocm.go and credentials.go call: the API server, the OCM library, the semver library,
-- the hash of hashstructure and the cache (the interface of pkg/cache/cache.go). Closing a reader,
-- a repository or a component version has no effect that the client reads.
use ocm_controller.Prelude.{ℕ, String, Bool, Option, List}
use ocm_controller.Prelude.Outcome.{Result, Op}
use ocm_controller.Component.Names.{NamespacedName, Identity}

-- The name and version of a ComponentDescriptor object.
pub record Descriptor : Type 0 where
  pub name : String
  pub version : String

-- url.URL
pub record Url : Type 0 where
  pub scheme : String
  pub host : String

pub record Library : Type 1 where
  -- the state of the cluster, the cache and the remote repositories
  pub Cluster : Type 0
  -- ocm.Context, Repository, ComponentAccess, ComponentVersionAccess, ResourceAccess
  pub Octx : Type 0
  pub Repo : Type 0
  pub Component : Type 0
  pub Access : Type 0
  pub Resource : Type 0
  pub Method : Type 0
  pub Semver : Type 0
  pub Constraint : Type 0
  -- credentials.Credentials
  pub Credentials : Type 0
  -- signing.Options, and digests
  pub Options : Type 0
  -- the content of an io.Reader
  pub Data : Type 0
  -- client.Get of a Secret (its data), a ServiceAccount (its pull secrets) and a ComponentDescriptor
  pub get_secret : Cluster → NamespacedName → Result (List (String × String))
  pub get_service_account : Cluster → NamespacedName → Result (List String)
  pub get_descriptor : Cluster → NamespacedName → Result Descriptor
  -- contexts and credentials
  pub new_context : Octx
  pub repository_for_config : Octx → String → Result Octx
  pub parse_url : String → Result Url
  pub new_credentials : List (String × String) → Credentials
  pub set_credentials : Octx → List (String × String) → Credentials → Octx
  -- repositories
  pub repository_for_spec : Cluster → Octx → String → Result Repo
  pub lookup_component : Cluster → Repo → String → Result Component
  pub list_versions : Cluster → Component → Result (List String)
  pub lookup_component_version : Cluster → Repo → String → String → Result Access
  -- semver: `none` is an error of NewVersion
  pub new_version : String → Option Semver
  pub greater_than : Semver → Semver → Bool
  pub new_constraint : String → Result Constraint
  pub validate : Constraint → Semver → Bool
  -- signing
  -- base64.StdEncoding.DecodeString
  pub decode_base64 : String → Result String
  pub new_options : Repo → String → String → Options
  pub complete : Options → Octx → Result Options
  -- signing.Apply, and the value of the digest that it returns
  pub apply_signing : Access → Options → Result String
  -- the signatures of a descriptor: name and digest value
  pub signatures : Access → List (String × String)
  -- resources
  pub resolve_reference : Cluster → Access → String → List Identity → Result Resource
  pub resource_type : Resource → String
  pub access_method : Cluster → Resource → Result Method
  pub reader : Cluster → Method → Result Data
  -- the download handler for helm charts, and ReadFile of what it wrote
  pub download : Cluster → Access → Resource → Result String
  pub read_file : Cluster → String → Result Data
  pub auto_decompress : Data → Result Data
  pub hash : Identity → Result ℕ
  -- pkg/cache
  pub is_cached : Cluster → String → String → Result Bool
  pub fetch_data_by_identity : Cluster → String → String → Result (Data × String)
  pub push_data : Data → String → String → String → Op Cluster String
  pub fetch_data_by_digest : Cluster → String → String → Result Data

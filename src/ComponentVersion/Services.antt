-- ===== src/ComponentVersion/Services.antt =====
-- What the ComponentVersion controller calls and does not implement: the API server and its client,
-- the OCM library, the semver library, the hash, and the interface to OCM repositories (Contract of
-- pkg/ocm/ocm.go, which other modules of the program implement).
use ocm_controller.Prelude.{ℕ, String, Bool, Option, List}
use ocm_controller.Prelude.Outcome.{Error, Result}
use ocm_controller.Status.Runtime.{Runtime}
use ocm_controller.Status.World.{World}
use ocm_controller.Component.Names.{NamespacedName, NamingScheme, Identity}
use ocm_controller.ComponentVersion.Types.{ComponentVersion}

-- ocmdesc.ComponentReference
pub record ComponentReference : Type 0 where
  pub name : String
  pub component_name : String
  pub version : String
  pub extra_identity : Identity

-- A ComponentDescriptor object of the cluster. `created` tells that its creation timestamp is set.
pub record DescriptorObject (Spec : Type 0) : Type 0 where
  pub key : NamespacedName
  pub created : Bool
  pub owners : List NamespacedName
  pub spec : Spec
  pub version : String

-- An object as the API server returns it.
pub record Stored (C O : Type 0) : Type 0 where
  pub obj : O
  pub generation : ℕ
  pub observed_generation : Option ℕ
  pub conditions : C

pub record Services (r : Runtime) : Type 1 where
  -- the state of the cluster and of all remote services
  pub Cluster : Type 0
  pub Octx : Type 0
  -- ocm.ComponentVersionAccess
  pub Access : Type 0
  -- v3alpha1.ComponentVersionSpec
  pub Spec : Type 0
  -- compdesc.ComponentDescriptorVersion, the result of ConvertFrom
  pub Converted : Type 0
  -- semver.Version
  pub Semver : Type 0
  -- client.Get, and Patch of the patch helper
  pub get_object : Cluster → NamespacedName → Result (Stored r.Conditions ComponentVersion)
  pub patch : World r.Conditions Cluster ComponentVersion → Option Error × Cluster
  -- controllerutil.CreateOrUpdate and SetOwnerReference
  pub create_or_update :
      DescriptorObject Spec
      → (DescriptorObject Spec → Result (DescriptorObject Spec))
      → Cluster
      → Result (DescriptorObject Spec) × Cluster
  pub set_owner_reference :
      ComponentVersion → DescriptorObject Spec → Result (DescriptorObject Spec)
  pub empty_spec : Spec
  -- Contract of pkg/ocm; a context that may be nil is an option
  pub create_authenticated_ocm_context : Cluster → ComponentVersion → Result Octx
  pub get_latest_valid_component_version : Cluster → Octx → ComponentVersion → Result String
  pub verify_component : Cluster → Octx → ComponentVersion → String → Result Bool
  pub get_component_version :
      Cluster → Option Octx → ComponentVersion → String → String → Result Access
  -- the descriptor of a component version, and its conversion
  pub references : Access → List ComponentReference
  pub convert : Access → Result Converted
  pub converted_name : Converted → String
  pub converted_version : Converted → String
  -- the type assertion to *compdesc.ComponentDescriptor, and its Spec
  pub converted_spec : Converted → Option Spec
  pub hash : NamingScheme → Result ℕ
  -- github.com/Masterminds/semver/v3
  pub parse_semver : String → Result Semver
  pub semver_equal : Semver → Semver → Bool
  pub semver_greater : Semver → Semver → Bool

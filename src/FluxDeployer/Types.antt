-- ===== src/FluxDeployer/Types.antt =====
-- api/v1alpha1/fluxdeployer_types.go, the Flux objects that the controller writes, and what it calls.
use ocm_controller.Prelude.{ℕ, String, Bool, Option, List}
use ocm_controller.Prelude.Outcome.{Error, Result}
use ocm_controller.Status.Runtime.{Runtime}
use ocm_controller.Status.World.{World}
use ocm_controller.Component.Names.{NamespacedName, Identity}
use ocm_controller.ComponentVersion.Services.{Stored}
use ocm_controller.Snapshot.Types.{Snapshot}

-- meta.NamespacedObjectKindReference
pub record ObjectReference : Type 0 where
  pub api_version : String
  pub kind : String
  pub namespace : String
  pub name : String

-- A template of a Kustomization or HelmRelease: its source reference, and the rest of its fields.
pub record Template : Type 0 where
  pub source_kind : String
  pub source_namespace : String
  pub source_name : String
  pub rest : String

pub record FluxDeployer : Type 0 where
  pub key : NamespacedName
  pub source_ref : ObjectReference
  pub interval : ℕ
  pub kustomization_template : Option Template
  pub helm_release_template : Option Template
  -- status.kustomization
  pub kustomization : String

-- The specs of the Flux objects.
pub data FluxSpec : Type 0 where
  empty : FluxSpec
  oci_repository : (interval : ℕ) (cert_secret url tag : String) → FluxSpec
  helm_repository : (interval : ℕ) (cert_secret url type : String) → FluxSpec
  kustomization : Template → FluxSpec
  helm_release : Template → FluxSpec

pub data FluxKind : Type 0 where
  oci_repository_kind helm_repository_kind kustomization_kind helm_release_kind : FluxKind

pub record FluxObject : Type 0 where
  pub flux_kind : FluxKind
  pub key : NamespacedName
  pub created : Bool
  pub owners : List NamespacedName
  pub spec : FluxSpec

-- A source object read through the dynamic client: the text at status.snapshotName, if it is there.
abbrev pub Source : Type 0
Source = Result (Option String)

pub record FluxServices (r : Runtime) : Type 1 where
  pub Cluster : Type 0
  pub get_object : Cluster → NamespacedName → Result (Stored r.Conditions FluxDeployer)
  pub new_helper : World r.Conditions Cluster FluxDeployer → Option Error
  pub patch : World r.Conditions Cluster FluxDeployer → Option Error × Cluster
  -- DynamicClient.Get with GetGVR of the reference, and NestedString of what it returns
  pub get_source : Cluster → ObjectReference → Result Source
  pub get_snapshot : Cluster → NamespacedName → Result (Stored r.Conditions Snapshot)
  pub create_or_update :
      FluxObject → (FluxObject → Result FluxObject) → Cluster → Result FluxObject × Cluster
  pub set_owner_reference : FluxDeployer → FluxObject → Result FluxObject
  pub hash : Identity → Result ℕ

-- ===== src/Resource/Types.antt =====
-- api/v1alpha1/resource_types.go and reference_types.go, GenerateSnapshotName of pkg/snapshot, and
-- what the Resource controller calls.
use Prim.Native.String.{◌++◌}
use ocm_controller.Prelude.{ℕ, String, Bool, Option, none, some, List, [], ◌∷◌}
use ocm_controller.Prelude.Outcome.{Error, Result, ok, Op}
use ocm_controller.Status.Runtime.{Runtime}
use ocm_controller.Status.World.{World}
use ocm_controller.Component.Names.{NamespacedName, Identity}
use ocm_controller.ComponentVersion.Types.{ComponentVersion}
use ocm_controller.ComponentVersion.Services.{Stored}
use ocm_controller.Ocm.Library.{Descriptor}
use ocm_controller.Ocm.Fetch.{ResourceReference}

-- ObjectReference: a component version, and a pointer to a reference to one of its resources
pub record SourceRef : Type 0 where
  pub namespace : String
  pub name : String
  pub resource_ref : Option ResourceReference

-- GetVersion of an ObjectReference
unfoldable pub get_version : SourceRef → String
get_version ref = elim ref.resource_ref [ none ↦ "" | some res ↦ res.version ]

pub record ResourceObject : Type 0 where
  pub key : NamespacedName
  pub interval : ℕ
  pub source_ref : SourceRef
  pub suspend : Bool
  pub last_applied_resource_version : String
  pub last_applied_component_version : String
  pub snapshot_name : String

-- GetVID
unfoldable pub get_vid : ResourceObject → List (String × String)
get_vid obj = ("delivery.ocm.software/resource_version", obj.last_applied_resource_version) ∷ []

-- GenerateSnapshotName: `random` is 7 letters and digits from crypto/rand.
unfoldable pub generate_snapshot_name : Result String → String → Result String
generate_snapshot_name (ok random) name = ok (name ++ ("-" ++ random))
generate_snapshot_name failed name = failed

-- A Snapshot object, as its writers fill it.
pub record SnapshotObject : Type 0 where
  pub key : NamespacedName
  pub created : Bool
  pub owners : List NamespacedName
  pub identity : Identity
  pub digest : String
  pub tag : String

pub record ResourceServices (r : Runtime) : Type 1 where
  pub Cluster : Type 0
  pub Octx : Type 0
  pub Data : Type 0
  pub get_object : Cluster → NamespacedName → Result (Stored r.Conditions ResourceObject)
  pub patch : World r.Conditions Cluster ResourceObject → Option Error × Cluster
  pub random_string : Cluster → Result String
  pub get_component_version :
      Cluster → NamespacedName → Result (Stored r.Conditions ComponentVersion)
  pub get_descriptor : Cluster → NamespacedName → Result Descriptor
  -- Contract of pkg/ocm
  pub create_authenticated_ocm_context : Cluster → ComponentVersion → Result Octx
  pub get_resource : Octx → ComponentVersion → Option ResourceReference → Op Cluster (Data × String)
  pub create_or_update :
      SnapshotObject
      → (SnapshotObject → Result SnapshotObject)
      → Cluster
      → Result SnapshotObject × Cluster
  pub set_owner_reference : ResourceObject → SnapshotObject → Result SnapshotObject

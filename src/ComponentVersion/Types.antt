-- ===== src/ComponentVersion/Types.antt =====
-- api/v1alpha1/componentversion_types.go. Metadata, generations and conditions of the object stand
-- in `World`.
use Prim.Native.String.{◌++◌}
use ocm_controller.Prelude.{ℕ, String, Bool, Option, List, [], ◌∷◌}
use ocm_controller.Component.Names.{NamespacedName}
use ocm_controller.Component.References.{Reference, ref_name}

-- v1alpha1.PublicKey: the name of a secret, and an inline value
pub record PublicKey : Type 0 where
  pub secret_ref : Option String
  pub value : String

pub record Signature : Type 0 where
  pub name : String
  pub public_key : PublicKey

pub record Repository : Type 0 where
  pub url : String
  pub secret_ref : Option String

pub record ComponentVersionSpec : Type 0 where
  pub component : String
  -- spec.version.semver, the constraint
  pub semver : String
  pub repository : Repository
  pub interval : ℕ
  pub verify : List Signature
  -- spec.references.expand
  pub expand : Bool
  pub suspend : Bool
  pub service_account_name : String

pub record ComponentVersion : Type 0 where
  pub key : NamespacedName
  pub spec : ComponentVersionSpec
  -- status.componentDescriptor and status.reconciledVersion
  pub component_descriptor : Reference
  pub reconciled_version : String

-- GetVID; the group is "delivery.ocm.software"
unfoldable pub get_vid : ComponentVersion → List (String × String)
get_vid cv =
    (
      "delivery.ocm.software/component_version",
      ref_name cv.component_descriptor ++ (":" ++ cv.reconciled_version),
    )
    ∷ []

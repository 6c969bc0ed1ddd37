-- ===== src/Snapshot/Types.antt =====
-- api/v1alpha1/snapshot_types.go. Metadata, generations and conditions stand in `World`.
use ocm_controller.Prelude.{String, Bool, Option, none, some, List, [], ◌∷◌, lookup}
use ocm_controller.Component.Names.{NamespacedName, Identity}

pub record Snapshot : Type 0 where
  pub key : NamespacedName
  -- metadata.deletionTimestamp is set
  pub deleted : Bool
  pub finalizers : List String
  pub owners : List NamespacedName
  -- the spec
  pub identity : Identity
  pub digest : String
  pub tag : String
  pub suspend : Bool
  -- the status
  pub last_reconciled_digest : String
  pub last_reconciled_tag : String
  pub repository_url : String

-- a Go map, read: the zero value where the key is missing
abbrev pub text_or_empty : Option String → String
text_or_empty none = ""
text_or_empty (some v) = v

unfoldable pub get_component_version : Snapshot → String
get_component_version s = text_or_empty (lookup "component-version" s.identity)

unfoldable pub get_component_resource_version : Snapshot → String
get_component_resource_version s = text_or_empty (lookup "resource-version" s.identity)

-- GetVID
unfoldable pub get_vid : Snapshot → List (String × String)
get_vid s = ("delivery.ocm.software/snapshot_digest", s.last_reconciled_digest) ∷ []

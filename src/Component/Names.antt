-- ===== src/Component/Names.antt =====
-- Names: ConstructUniqueName of pkg/component/construct_unique_name.go, and ConstructRepositoryName
-- and HashIdentity of pkg/ocm/ocm.go. The two hash functions (hashstructure, version 1 and 2) are
-- parameters.
use Prim.Native.String.{◌++◌}
use ocm_controller.Prelude.{ℕ, String, none, some, List, lookup}
use ocm_controller.Prelude.Outcome.{Result, ok, err, panic, out_of_fuel, wrap}
use ocm_controller.Prelude.Text.{decimal, replace_slashes}

-- types.NamespacedName, client.ObjectKey and meta.NamespacedObjectReference
pub record NamespacedName : Type 0 where
  pub namespace : String
  pub name : String

-- ocmmetav1.Identity, a map of texts
abbrev pub Identity : Type 0
Identity = List (String × String)

-- v1alpha1.ResourceHelmChartNameKey
abbrev pub helm_chart_key : String
helm_chart_key = "helmChart"

-- namingScheme, the value that is hashed for a unique name
pub record NamingScheme : Type 0 where
  pub component_name : String
  pub version : String
  pub identity : Identity

unfoldable pub construct_unique_name :
    (NamingScheme → Result ℕ) → String → String → Identity → Result String
construct_unique_name hash name version identity =
    elim (hash (record { component_name = name; version = version; identity = identity })) [
      | ok h ↦ ok (replace_slashes name ++ ("-" ++ (version ++ ("-" ++ decimal h))))
      | err e ↦ err (wrap "failed to generate hash for name, version, identity" e)
      | panic ↦ panic
      | out_of_fuel ↦ out_of_fuel
    ]

unfoldable pub hash_identity : (Identity → Result ℕ) → Identity → Result String
hash_identity hash id = elim (hash id) [
  | ok h ↦ ok ("sha-" ++ decimal h)
  | err e ↦ err (wrap "failed to hash identity" e)
  | panic ↦ panic
  | out_of_fuel ↦ out_of_fuel
]

unfoldable pub construct_repository_name : (Identity → Result ℕ) → Identity → Result String
construct_repository_name hash identity = elim (hash_identity hash identity) [
  | ok repository_name ↦ elim (lookup helm_chart_key identity) [
    | some v ↦ ok (repository_name ++ ("/" ++ v))
    | none ↦ ok repository_name
  ]
  | err e ↦ err (wrap "failed to create hash for identity" e)
  | panic ↦ panic
  | out_of_fuel ↦ out_of_fuel
]

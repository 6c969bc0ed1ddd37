-- ===== src/ComponentVersion/Watch.antt =====
-- The index of controllers/componentversion_controller.go and findObjects: the component versions
-- that a change of a secret concerns.
use Prim.Native.String.{◌++◌}
use ocm_controller.Prelude.{String, none, some, List, [], ◌∷◌}
use ocm_controller.Prelude.Outcome.{Result, ok, err}
use ocm_controller.Component.Names.{NamespacedName}
use ocm_controller.ComponentVersion.Types.{ComponentVersion}
use ocm_controller.Localization.Requests.{key_text}

unfoldable pub index_secret : ComponentVersion → List String
index_secret obj = elim obj.spec.repository.secret_ref [
  | none ↦ []
  | some name ↦ (obj.key.namespace ++ ("/" ++ name)) ∷ []
]

-- one request for each object of a list, and none for a list that fails
abbrev pub requests : Result (List NamespacedName) → Result (List NamespacedName)
requests (ok keys) = ok keys
requests (err e) = ok []
requests failed = failed

-- `list` is client.List by the index of the manager, of the secret's key.
unfoldable pub find_objects :
    (String → Result (List NamespacedName)) → NamespacedName → Result (List NamespacedName)
find_objects list obj = requests (list (key_text obj))

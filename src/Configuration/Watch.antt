-- ===== src/Configuration/Watch.antt =====
-- The indices of controllers/configuration_controller.go, and the objects that a change of a Git
-- repository concerns. The indices of controllers/localization_controller.go are the first three.
use Prim.Native.String.{◌++◌}
use ocm_controller.Prelude.{String, none, some, List, [], ◌∷◌}
use ocm_controller.Prelude.{◌++◌ as list_append}
use ocm_controller.Prelude.Outcome.{Result, ok}
use ocm_controller.Ocm.Credentials.{◌>>=◌}
use ocm_controller.Component.Names.{NamespacedName}
use ocm_controller.FluxDeployer.Types.{ObjectReference}
use ocm_controller.FluxDeployer.Controller.{or_default}
use ocm_controller.Mutation.Types.{MutationObject}
use ocm_controller.Localization.Requests.{key_text, make_requests}
use ocm_controller.Localization.Watch as Localization
use ocm_controller.Localization.Watch.{Watched, requests_of}

abbrev pub index_of : MutationObject → ObjectReference → List String
index_of obj ref = (or_default ref.namespace obj.key.namespace ++ ("/" ++ ref.name)) ∷ []

unfoldable pub index_source : MutationObject → List String
index_source obj = index_of obj obj.source_ref.ref

unfoldable pub index_config : MutationObject → List String
index_config obj = elim obj.config_ref [ none ↦ [] | some config ↦ index_of obj config.ref ]

unfoldable pub index_patch_source : MutationObject → List String
index_patch_source obj = elim obj.patch [ none ↦ [] | some patch ↦ index_of obj patch.source_ref ]

unfoldable pub index_values_source : MutationObject → List String
index_values_source obj = elim obj.values_from [
  | none ↦ []
  | some values ↦ elim values.flux_source [ none ↦ [] | some flux ↦ index_of obj flux.source_ref ]
]

-- `list` is client.List by an index of the manager: the field, and the term it has to equal.
module _ (list : String → String → Result (List NamespacedName)) where
  -- the loop over the keys
  unfoldable pub list_all : List String → String → Result (List NamespacedName)
  list_all [] term = ok []
  list_all (key ∷ keys) term = do
    found ← list key term
    others ← list_all keys term
    ok (list_append found others)

  unfoldable pub find_objects_for_git_repository :
      List String → NamespacedName → Result (List NamespacedName)
  find_objects_for_git_repository keys obj = requests_of list (list_all keys (key_text obj))

  -- findObjects and makeRequestsForConfigurations are those of the Localization controller.
  abbrev pub find_objects : String → String → Watched → Result (List NamespacedName)
  find_objects = Localization.find_objects list

abbrev pub make_requests_for_configurations : List NamespacedName → List NamespacedName
make_requests_for_configurations = make_requests

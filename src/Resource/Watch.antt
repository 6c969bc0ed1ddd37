-- ===== src/Resource/Watch.antt =====
-- The index of controllers/resource_controller.go and findObjects: the resources that a change of a
-- component version concerns.
use Prim.Native.String.{◌++◌}
use ocm_controller.Prelude.{String, List, [], ◌∷◌}
use ocm_controller.Prelude.Outcome.{Result}
use ocm_controller.Component.Names.{NamespacedName}
use ocm_controller.ComponentVersion.Watch.{requests}
use ocm_controller.FluxDeployer.Controller.{or_default}
use ocm_controller.Resource.Types.{ResourceObject}
use ocm_controller.Localization.Requests.{key_text}

unfoldable pub index_component_version : ResourceObject → List String
index_component_version res =
    (or_default res.source_ref.namespace res.key.namespace ++ ("/" ++ res.source_ref.name)) ∷ []

-- `list` is client.List by the index of the manager, of the component version's key.
unfoldable pub find_objects :
    (String → Result (List NamespacedName)) → NamespacedName → Result (List NamespacedName)
find_objects list obj = requests (list (key_text obj))

-- ===== src/FluxDeployer/Watch.antt =====
-- The index of controllers/fluxdeployer_controller.go and findObjects: the deployers that a change of
-- a snapshot concerns.
use Prim.Native.String.{◌++◌}
use ocm_controller.Prelude.{String, List, [], ◌∷◌}
use ocm_controller.Prelude.Outcome.{Result, ok}
use ocm_controller.Component.Names.{NamespacedName}
use ocm_controller.ComponentVersion.Watch.{requests}
use ocm_controller.Localization.Watch.{Watched, snapshot}
use ocm_controller.FluxDeployer.Types.{FluxDeployer}
use ocm_controller.FluxDeployer.Controller.{or_default}

unfoldable pub index_source : FluxDeployer → List String
index_source obj =
    (or_default obj.source_ref.namespace obj.key.namespace ++ ("/" ++ obj.source_ref.name)) ∷ []

-- `list` is client.List by the index of the manager, of the key of the snapshot's only owner.
unfoldable pub find_objects :
    (String → Result (List NamespacedName)) → Watched → Result (List NamespacedName)
find_objects list (snapshot key (owner ∷ [])) = requests (list (key.namespace ++ ("/" ++ owner)))
find_objects list obj = ok []

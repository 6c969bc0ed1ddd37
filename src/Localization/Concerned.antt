-- ===== src/Localization/Concerned.antt =====
-- Which localizations a change concerns: findObjects with the indices of the manager.
use Prim.Native.String.{◌++◌}
use ocm_controller.Prelude.{String, ◌≡◌, ◌↔◌, ◌⊎◌, some, List, [], ◌∷◌, In}
use ocm_controller.Prelude.Outcome.{Result, ok}
use ocm_controller.Component.Names.{NamespacedName}
use ocm_controller.FluxDeployer.Types.{ObjectReference}
use ocm_controller.FluxDeployer.Controller.{or_default}
use ocm_controller.Mutation.Types.{MutationObject, DataReference}
use ocm_controller.Configuration.Watch.{index_source, index_config}
use ocm_controller.Localization.Requests.{key_text, texts, Increasing}
use ocm_controller.Localization.Watch.{Watched, component_version, snapshot, find_objects}

-- What a change of an object is a change of: a component version is one of itself, and a snapshot one
-- of its owner, if it has one owner.
pub data Stands : Watched → NamespacedName → Type 0 where
  itself : (key : NamespacedName) → Stands (component_version key) key
  owned :
      (key : NamespacedName) (owner : String)
      → Stands (snapshot key (owner ∷ [])) (record { namespace = key.namespace; name = owner })

-- A reference of an object names another object, in the namespace of the object if it gives none.
abbrev pub Names : MutationObject → ObjectReference → NamespacedName → Type 0
Names o ref key = or_default ref.namespace o.key.namespace ++ ("/" ++ ref.name) ≡ key_text key

-- The source or the configuration of the object is the one of that key.
abbrev pub Uses : MutationObject → NamespacedName → Type 0
Uses o key =
    Names o o.source_ref.ref key
    ⊎ ((config : DataReference) × (o.config_ref ≡ some config) × Names o config.ref key)

-- The API server lists, for a term, the objects of which the index has it.
abbrev pub Lists :
    List MutationObject
    → (MutationObject → List String)
    → String
    → Result (List NamespacedName)
    → Type 0
Lists objs index term answer =
    (keys : List NamespacedName) × (answer ≡ ok keys)
    × ((t : String)
        → In t (texts keys)
          ↔ ((o : MutationObject) × In o objs × (key_text o.key ≡ t) × In term (index o)))

module _ (objs : List MutationObject) (list : String → String → Result (List NamespacedName))
    (source_key config_key : String)
    (by_source : (term : String) → Lists objs index_source term (list source_key term))
    (by_config : (term : String) → Lists objs index_config term (list config_key term)) where
  -- what the two lists have, one by one and together
  abbrev pub User : String → NamespacedName → Type 0
  User t key = (o : MutationObject) × In o objs × (key_text o.key ≡ t) × Uses o key

  -- the answer to a change of an object that stands for that key
  abbrev pub Answers : Watched → NamespacedName → Type 0
  Answers obj key =
      (found : List NamespacedName) × (find_objects list source_key config_key obj ≡ ok found)
      × Increasing (texts found)
      × ((t : String) → In t (texts found) ↔ User t key)

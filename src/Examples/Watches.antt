-- ===== src/Examples/Watches.antt =====
-- What a change of a secret or of a snapshot is answered with.
use ocm_controller.Prelude.{◌≡◌, refl, String, [], ◌∷◌, List, if◌then◌else◌, str_eq}
use ocm_controller.Prelude.Outcome.{Result, ok, err, not_found}
use ocm_controller.Component.Names.{NamespacedName}
use ocm_controller.Localization.Watch.{snapshot, other}
use ocm_controller.ComponentVersion.Watch as Secrets
use ocm_controller.FluxDeployer.Watch as Snapshots
use ocm_controller.ComponentVersion.Watch.{index_secret}
use ocm_controller.Examples.Repository.{app}

abbrev deployer : NamespacedName
deployer = record { namespace = "ocm-system"; name = "deploy-app" }

abbrev changed : NamespacedName
changed = record { namespace = "ocm-system"; name = "app-snapshot" }

-- an index that has the owner of the snapshot
abbrev by_source : String → Result (List NamespacedName)
by_source term = if str_eq term "ocm-system/app" then ok (deployer ∷ []) else ok []

deployer_asked :
    Snapshots.find_objects by_source (snapshot changed ("app" ∷ [])) ≡ ok (deployer ∷ [])
unfolding Snapshots.find_objects
deployer_asked = refl

two_owners_ignored :
    Snapshots.find_objects by_source (snapshot changed ("app" ∷ "other" ∷ [])) ≡ ok []
unfolding Snapshots.find_objects
two_owners_ignored = refl

others_ignored : Snapshots.find_objects by_source other ≡ ok []
unfolding Snapshots.find_objects
others_ignored = refl

failed_list_ignored : Secrets.find_objects (λ term. err not_found) changed ≡ ok []
unfolding Secrets.find_objects
failed_list_ignored = refl

secret_of_app : index_secret app ≡ []
unfolding index_secret
secret_of_app = refl

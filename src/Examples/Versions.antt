-- ===== src/Examples/Versions.antt =====
-- The client of pkg/ocm at the small repository.
use ocm_controller.Prelude.{
  ◌≡◌, ◌≢◌, ◌↔◌, ◌⊎◌, refl, inl, String, true, false, some, List, [], ◌∷◌, ℕ,
}
use ocm_controller.Prelude.Outcome.{ok}
use ocm_controller.Ocm.Versions.{
  Version, list_component_versions, get_latest_valid_component_version, first_valid, sort_versions,
  insert_version,
}
use ocm_controller.Ocm.Latest.{IsGreatest, get_latest-IsGreatest, get_latest-found}
use ocm_controller.Ocm.Verify.{verify_component}
use ocm_controller.Ocm.Verified.{IsVerified, verify_component-IsVerified}
use ocm_controller.Ocm.Fetch.{ResourceReference}
use ocm_controller.Ocm.Cached.{get_resource, IsCaching, get_resource-IsCaching}
use ocm_controller.Examples.Repository.{library, app, greater-IsOrder}

abbrev listed : List (Version library)
listed =
    (record { semver = 1; version = "1.0.0" })
    ∷ (record { semver = 3; version = "3.0.0" })
    ∷ (record { semver = 2; version = "v2.0.0" })
    ∷ []

latest_of_app : get_latest_valid_component_version library [] tt app ≡ ok "v2.0.0"
unfolding get_latest_valid_component_version list_component_versions first_valid sort_versions
    insert_version
latest_of_app = refl

versions_of_app : list_component_versions library [] tt app ≡ ok listed
unfolding list_component_versions
versions_of_app = refl

get_latest-IsGreatest_example :
    (vs : List (Version library)) × (c : ℕ) × (list_component_versions library [] tt app ≡ ok vs)
    × (library.new_constraint "<3.0.0" ≡ ok c)
    × IsGreatest library c vs "v2.0.0"
get_latest-IsGreatest_example =
    get_latest-IsGreatest library greater-IsOrder [] tt app "v2.0.0" latest_of_app

get_latest-found_example :
    (v : String) × (get_latest_valid_component_version library [] tt app ≡ ok v)
get_latest-found_example =
    get_latest-found library [] tt app listed 2 (record { semver = 1; version = "1.0.0" })
      versions_of_app refl (inl refl) refl

verify_component-IsVerified_example :
    ((verify_component library [] tt app "v2.0.0" ≡ ok true)
      ↔ IsVerified library [] tt app "v2.0.0")
    × (verify_component library [] tt app "v2.0.0" ≢ ok false)
verify_component-IsVerified_example = verify_component-IsVerified library [] tt app "v2.0.0"

abbrev image : ResourceReference
image = record { name = "image"; version = ""; extra_identity = []; reference_path = [] }

get_resource-IsCaching_example :
    ((get_resource library (some tt) app image []).1 ≡ [])
    ⊎ IsCaching library [] (get_resource library (some tt) app image []).1 (some tt) app image
get_resource-IsCaching_example = get_resource-IsCaching library (some tt) app image []

-- ===== src/Examples/MutationRuns.antt =====
-- The mutation of a resource whose source is a snapshot, by a localization and by a patch.
use ocm_controller.Prelude.{◌≡◌, refl, none, some, [], ◌∷◌}
use ocm_controller.Prelude.Outcome.{ok}
use ocm_controller.Component.Names.{construct_repository_name, hash_identity}
use ocm_controller.Mutation.Access.{find_reference}
use ocm_controller.Mutation.Rules.{
  add_parts, perform_localization, localize_all, create_substitution_rules_for_localization,
}
use ocm_controller.Mutation.Sources.{
  get_data, get_identity, identity_of_snapshot, fetch_data_from_object_reference,
  get_snapshot_bytes, get_component_version_of, get_git_source, identity_of_resource,
  fetch_data_from_component_version,
}
use ocm_controller.Mutation.Agreement.{IsOfSnapshot, get_data-IsOfSnapshot}
use ocm_controller.Mutation.Patch.{strategic_merge_patch}
use ocm_controller.Mutation.Looper.{
  Here, unpack, localize, mutate, mutate_by_config, patch_in, mutate_by_patch, perform_mutation,
  write_mutated, mutate_and_write, reconcile_mutation_object,
}
use ocm_controller.Mutation.Patched.{IsRemoved, perform_mutation-IsRemoved}
use ocm_controller.Examples.Conditions.{conditions}
use ocm_controller.Examples.Mutations.{services, source, snapshot, localization, patch, in_world}

localization_mutates :
    (reconcile_mutation_object conditions services 2 (in_world localization)).0 ≡ ok tt
unfolding reconcile_mutation_object get_data fetch_data_from_object_reference get_snapshot_bytes
    construct_repository_name hash_identity get_identity identity_of_snapshot mutate_and_write
    perform_mutation mutate_by_config fetch_data_from_component_version identity_of_resource mutate
    localize get_component_version_of unpack create_substitution_rules_for_localization localize_all
    perform_localization find_reference add_parts write_mutated
localization_mutates = refl

abbrev patched : Here conditions services
patched = in_world (record localization { config_ref = none; patch = some patch })

patch_mutates :
    (perform_mutation conditions services 2 "archive" patched).0
    ≡ ok (
      "/tmp/kustomization/work/patch.yaml",
      ("source-name", "patches")
          ∷ ("source-namespace", "flux-system")
          ∷ ("source-artifact-checksum", "sha256:9")
          ∷ [],
    )
unfolding perform_mutation mutate_by_patch patch_in get_git_source strategic_merge_patch
patch_mutates = refl

perform_mutation-IsRemoved_example :
    IsRemoved conditions services 2 patch "/tmp/kustomization/work/patch.yaml"
      (perform_mutation conditions services 2 "archive" patched).1.cluster
perform_mutation-IsRemoved_example =
    perform_mutation-IsRemoved conditions services 2 "archive" patched patch refl patch_mutates

source_is_read : (get_data conditions services source []).0 ≡ ok "archive"
unfolding get_data fetch_data_from_object_reference get_snapshot_bytes construct_repository_name
    hash_identity
source_is_read = refl

source_is_identified :
    (get_identity conditions services source (get_data conditions services source []).1).0
    ≡ ok snapshot.obj.identity
unfolding get_identity identity_of_snapshot
source_is_identified = refl

get_data-IsOfSnapshot_example :
    ((get_data conditions services source []).1 ≡ [])
    × IsOfSnapshot conditions services [] source "archive" snapshot.obj.identity
get_data-IsOfSnapshot_example =
    get_data-IsOfSnapshot conditions services source [] "archive" snapshot.obj.identity refl
      source_is_read source_is_identified

-- ===== src/Examples/Looped.antt =====
-- The Localization controller with the looper, at a localization whose source is a ready snapshot.
use ocm_controller.Prelude.{none}
use ocm_controller.Prelude.Outcome.{ok, err, not_found}
use ocm_controller.Mutation.Looper.{Here}
use ocm_controller.Mutation.Services.{MutationServices}
use ocm_controller.Localization.Types.{LocalizationServices}
use ocm_controller.Localization.Controller.{reconcile_localization}
use ocm_controller.Localization.Client.{Rest, looped_services}
use ocm_controller.Examples.Conditions.{conditions}
use ocm_controller.Examples.Repository.{app}
use ocm_controller.Examples.Mutations.{services, localization, in_world, snapshot}

-- Component versions are ready here, as the localization has one as its configuration.
abbrev ready_services : MutationServices conditions
ready_services = record services {
  get_component_version = λ k key. ok (record {
    obj = app;
    generation = 1;
    observed_generation = none;
    conditions = snapshot.conditions;
  });
}

abbrev rest : Rest conditions ready_services
rest = record {
  get_object = λ k key. err not_found;
  patch = λ w. (none, w.cluster);
  get_git_conditions = λ k key. err not_found;
  random_string = λ k. ok "abcdefg";
}

abbrev looped : LocalizationServices conditions
looped = looped_services conditions ready_services 2 rest

abbrev started : Here conditions ready_services
started = in_world localization

abbrev finished : Here conditions ready_services
finished = (reconcile_localization conditions looped started).1

-- ===== src/Localization/Client.antt =====
-- The Localization and Configuration controllers with the looper of
-- controllers/mutation_reconcile_looper.go, as main.go puts them together.
use ocm_controller.Prelude.{ℕ, String, Option}
use ocm_controller.Prelude.Outcome.{Error, Result}
use ocm_controller.Status.Runtime.{Runtime}
use ocm_controller.Status.World.{World}
use ocm_controller.Component.Names.{NamespacedName}
use ocm_controller.ComponentVersion.Services.{Stored}
use ocm_controller.Mutation.Types.{MutationObject}
use ocm_controller.Mutation.Services.{MutationServices}
use ocm_controller.Mutation.Looper.{reconcile_mutation_object}
use ocm_controller.Localization.Types.{LocalizationServices}

-- What the controller calls besides the looper.
pub record Rest (r : Runtime) (m : MutationServices r) : Type 1 where
  pub get_object : m.Cluster → NamespacedName → Result (Stored r.Conditions MutationObject)
  pub patch : World r.Conditions m.Cluster MutationObject → Option Error × m.Cluster
  pub get_git_conditions : m.Cluster → NamespacedName → Result r.Conditions
  pub random_string : m.Cluster → Result String

abbrev pub looped_services :
    (r : Runtime) (m : MutationServices r) → ℕ → Rest r m → LocalizationServices r
looped_services r m fuel rest = record {
  Cluster = m.Cluster;
  get_object = rest.get_object;
  patch = rest.patch;
  get_component_version = m.get_component_version;
  get_source = m.get_source;
  get_snapshot = m.get_snapshot;
  get_git_repository = rest.get_git_conditions;
  random_string = rest.random_string;
  reconcile_mutation_object = reconcile_mutation_object r m fuel;
}

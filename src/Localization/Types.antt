-- ===== src/Localization/Types.antt =====
-- What the Localization controller calls, and the Configuration controller with it.
use ocm_controller.Prelude.{String, Option}
use ocm_controller.Prelude.Outcome.{Error, Result, Op}
use ocm_controller.Status.Runtime.{Runtime}
use ocm_controller.Status.World.{World}
use ocm_controller.Component.Names.{NamespacedName}
use ocm_controller.ComponentVersion.Types.{ComponentVersion}
use ocm_controller.ComponentVersion.Services.{Stored}
use ocm_controller.Snapshot.Types.{Snapshot}
use ocm_controller.FluxDeployer.Types.{ObjectReference, Source}
use ocm_controller.Mutation.Types.{MutationObject}

pub record LocalizationServices (r : Runtime) : Type 1 where
  pub Cluster : Type 0
  pub get_object : Cluster → NamespacedName → Result (Stored r.Conditions MutationObject)
  pub patch : World r.Conditions Cluster MutationObject → Option Error × Cluster
  pub get_component_version :
      Cluster → NamespacedName → Result (Stored r.Conditions ComponentVersion)
  -- the dynamic client, and status.snapshotName of what it returns
  pub get_source : Cluster → ObjectReference → Result Source
  pub get_snapshot : Cluster → NamespacedName → Result (Stored r.Conditions Snapshot)
  -- the conditions of a GitRepository of Flux
  pub get_git_repository : Cluster → NamespacedName → Result r.Conditions
  pub random_string : Cluster → Result String
  -- ReconcileMutationObject of the mutation looper, which writes status and cluster
  pub reconcile_mutation_object : Op (World r.Conditions Cluster MutationObject) (Unit {0})

-- ===== src/Localization/Reported.antt =====
-- No error of the Localization controller goes unreported.
use ocm_controller.Prelude.{true, Option, none, some, ◌≡◌}
use ocm_controller.Prelude.Outcome.{Error}
use ocm_controller.Status.Runtime.{Runtime, RuntimeLaws}
use ocm_controller.Status.World.{Requeue, return}
use ocm_controller.Status.Exits.{Exits, exit_rules}
use ocm_controller.Status.Reported.{
  Reported, fail_with-Reported, fail-Reported, succeed-Reported, requeue-Reported,
}
use ocm_controller.Status.Deferred.{Told, Ends, deferred-Told, request-Ends, unless_idle}
use ocm_controller.Component.Names.{NamespacedName}
use ocm_controller.Mutation.Types.{DataReference, PatchStrategicMerge}
use ocm_controller.Localization.Types.{LocalizationServices}
use ocm_controller.Localization.Controller.{
  check_source, check_config_ref, check_patch_source, reconcile, name_or_reconcile,
  reconcile_localization, load, reconcile_object, reconcile_request,
}

module _ (r : Runtime) (laws : RuntimeLaws r) (s : LocalizationServices r) where
  check_source-Reported : Exits (Reported r) (check_source r s)
  unfolding check_source
  check_source-Reported = search (exit_rules, fail_with-Reported r laws) depth 20

  check_config_ref-Reported :
      (config : Option DataReference) → Exits (Reported r) (check_config_ref r s config)
  check_config_ref-Reported none = search (exit_rules) depth 20
  check_config_ref-Reported (some config) = search (exit_rules, fail_with-Reported r laws) depth 20

  check_patch_source-Reported :
      (ref : Option PatchStrategicMerge) → Exits (Reported r) (check_patch_source r s ref)
  check_patch_source-Reported none = search (exit_rules) depth 20
  check_patch_source-Reported (some ref) = search (exit_rules, fail_with-Reported r laws) depth 20

  reconcile-Reported : Exits (Reported r) (reconcile r s)
  unfolding reconcile
  reconcile-Reported =
      search (exit_rules, fail-Reported r laws, succeed-Reported r laws, requeue-Reported r laws)
        depth 20

  name_or_reconcile-Reported : Exits (Reported r) (name_or_reconcile r s)
  unfolding name_or_reconcile
  name_or_reconcile-Reported =
      search (exit_rules, fail-Reported r laws, requeue-Reported r laws, reconcile-Reported) depth
        20

  reconcile_localization-Reported : Exits (Reported r) (reconcile_localization r s)
  unfolding reconcile_localization
  reconcile_localization-Reported =
      search
        (
          exit_rules, check_source-Reported, check_config_ref-Reported, check_patch_source-Reported,
          name_or_reconcile-Reported,
        )
        depth 20

  -- Each return of Reconcile for a localization: the object was not read, and the error is returned
  -- unless the object is not there; or it is suspended, and as it was, without an error; or it was
  -- patched last, and an error that is returned is that of the patch, or Ready is False and the
  -- Reconciling condition is gone.
  pub request_localization-Told :
      (key : NamespacedName) (k : s.Cluster) (q : Requeue) (e : Option Error)
      → (reconcile_request r s key k).0 ≡ return q e
      → Ends "failed to get localization object"
          (s.get_object k key)
          (λ o. load r s o k)
          (λ w. w.obj.suspend ≡ true)
          (Told r s.patch)
          q
          e
          (reconcile_request r s key k).1
  unfolding reconcile_request reconcile_object
  request_localization-Told key k q e h =
      request-Ends (λ w. w.obj.suspend ≡ true) (Told r s.patch) _ _ _ _
        (λ w.
          unless_idle w.obj.suspend _
            (deferred-Told r _ s.patch laws _ reconcile_localization-Reported) w)
        q e h

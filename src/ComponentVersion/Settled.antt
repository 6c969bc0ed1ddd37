-- ===== src/ComponentVersion/Settled.antt =====
-- Each way out of a reconciliation leaves a verdict on the object.
use ocm_controller.Prelude.{ℕ, String, Bool, true, Option, ◌≡◌}
use ocm_controller.Prelude.Outcome.{Error}
use ocm_controller.Status.Runtime.{Runtime, RuntimeLaws}
use ocm_controller.Status.World.{Requeue, return}
use ocm_controller.Status.Exits.{
  Exits, Settled, exit_rules, fail_with-Settled, fail-Settled, stall-Settled, succeed-Settled,
}
use ocm_controller.Status.Deferred.{Concluded, Ends, deferred-Concluded, request-Ends, unless_idle}
use ocm_controller.Component.Names.{NamespacedName}
use ocm_controller.ComponentVersion.Services.{Services}
use ocm_controller.ComponentVersion.Controller.{
  reconcile, after_check, checked_version, update_component, expand_references, load,
  reconcile_object, reconcile_request,
}

module _ (r : Runtime) (laws : RuntimeLaws r) (s : Services r) (fuel : ℕ) where
  open s use {Octx, Access}

  expand_references-Settled :
      (octx : Octx) (a : Access) → Exits (Settled r) (expand_references r s fuel octx a)
  unfolding expand_references
  expand_references-Settled octx a = search (exit_rules, fail-Settled r laws) depth 20

  reconcile-Settled : (octx : Octx) (v : String) → Exits (Settled r) (reconcile r s fuel octx v)
  unfolding reconcile
  reconcile-Settled octx v =
      search (exit_rules, fail-Settled r laws, succeed-Settled r laws, expand_references-Settled)
        depth 20

  after_check-Settled :
      (octx : Octx) (found : Bool × String) → Exits (Settled r) (after_check r s fuel octx found)
  unfolding after_check
  after_check-Settled octx (update, v) =
      search (exit_rules, fail_with-Settled r laws, succeed-Settled r laws, reconcile-Settled) depth
        20

  checked_version-Settled : (octx : Octx) → Exits (Settled r) (checked_version r s fuel octx)
  unfolding checked_version
  checked_version-Settled octx = search (exit_rules, fail_with-Settled r laws)

  update_component-Settled : Exits (Settled r) (update_component r s fuel)
  unfolding update_component
  update_component-Settled =
      search (exit_rules, stall-Settled r laws, checked_version-Settled, after_check-Settled) depth
        20

  -- Each return of Reconcile for a component version: the object was not read, and the error is
  -- returned unless the object is not there; or it is suspended, and as it was, without an error; or
  -- it was patched last, the Reconciling condition is gone, and Ready is True or False. Where Ready is
  -- True, an error that is returned is that of the patch.
  pub request_component-Concluded :
      (key : NamespacedName) (k : s.Cluster) (q : Requeue) (e : Option Error)
      → (reconcile_request r s fuel key k).0 ≡ return q e
      → Ends "failed to get component object"
          (s.get_object k key)
          (λ o. load r s fuel o k)
          (λ w. w.obj.spec.suspend ≡ true)
          (Concluded r s.patch)
          q
          e
          (reconcile_request r s fuel key k).1
  unfolding reconcile_request reconcile_object
  request_component-Concluded key k q e h =
      request-Ends (λ w. w.obj.spec.suspend ≡ true) (Concluded r s.patch) _ _ _ _
        (λ w.
          unless_idle w.obj.spec.suspend _
            (deferred-Concluded r _ s.patch laws _ update_component-Settled) w)
        q e h

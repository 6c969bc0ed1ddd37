-- ===== src/Resource/Reported.antt =====
-- No error of the Resource controller goes unreported.
use ocm_controller.Prelude.{String, true, Option, ◌≡◌}
use ocm_controller.Prelude.Outcome.{Error}
use ocm_controller.Status.Runtime.{Runtime, RuntimeLaws}
use ocm_controller.Status.World.{Requeue, return}
use ocm_controller.Status.Exits.{Exits, exit_rules}
use ocm_controller.Status.Reported.{
  Reported, fail_with-Reported, fail-Reported, stall-Reported, succeed-Reported, requeue-Reported,
}
use ocm_controller.Status.Deferred.{Told, Ends, deferred-Told, request-Ends, unless_idle}
use ocm_controller.Component.Names.{Identity, NamespacedName}
use ocm_controller.ComponentVersion.Types.{ComponentVersion}
use ocm_controller.Ocm.Fetch.{ResourceReference}
use ocm_controller.Resource.Types.{ResourceServices}
use ocm_controller.Resource.Controller.{
  find_descriptor, write_snapshot, make_snapshot, reconcile, reconcile_resource, load,
  reconcile_object, reconcile_request,
}

module _ (r : Runtime) (laws : RuntimeLaws r) (s : ResourceServices r) where
  find_descriptor-Reported :
      (cv : ComponentVersion) (ref : ResourceReference)
      → Exits (Reported r) (find_descriptor r s cv ref)
  unfolding find_descriptor
  find_descriptor-Reported cv ref =
      search (exit_rules, fail-Reported r laws, fail_with-Reported r laws) depth 20

  write_snapshot-Reported :
      (identity : Identity) (digest tag : String)
      → Exits (Reported r) (write_snapshot r s identity digest tag)
  unfolding write_snapshot
  write_snapshot-Reported identity digest tag = search (exit_rules, fail-Reported r laws) depth 20

  make_snapshot-Reported :
      (cv : ComponentVersion) (digest : String) → Exits (Reported r) (make_snapshot r s cv digest)
  unfolding make_snapshot
  make_snapshot-Reported cv digest =
      search
        (
          exit_rules,
          fail_with-Reported r laws,
          succeed-Reported r laws,
          requeue-Reported r laws,
          find_descriptor-Reported,
          write_snapshot-Reported,
        )
        depth 20

  reconcile-Reported : Exits (Reported r) (reconcile r s)
  unfolding reconcile
  reconcile-Reported =
      search
        (
          exit_rules,
          fail_with-Reported r laws,
          fail-Reported r laws,
          stall-Reported r laws,
          requeue-Reported r laws,
          make_snapshot-Reported,
        )
        depth 20

  reconcile_resource-Reported : Exits (Reported r) (reconcile_resource r s)
  unfolding reconcile_resource
  reconcile_resource-Reported =
      search (exit_rules, fail-Reported r laws, requeue-Reported r laws, reconcile-Reported) depth
        20

  -- Each return of Reconcile for a resource: the object was not read, and the error is returned unless
  -- the object is not there; or it is suspended, and as it was, without an error; or it was patched
  -- last, and an error that is returned is that of the patch, or Ready is False and the Reconciling
  -- condition is gone.
  pub request_resource-Told :
      (key : NamespacedName) (k : s.Cluster) (q : Requeue) (e : Option Error)
      → (reconcile_request r s key k).0 ≡ return q e
      → Ends "failed to get resource object"
          (s.get_object k key)
          (λ o. load r s o k)
          (λ w. w.obj.suspend ≡ true)
          (Told r s.patch)
          q
          e
          (reconcile_request r s key k).1
  unfolding reconcile_request reconcile_object
  request_resource-Told key k q e h =
      request-Ends (λ w. w.obj.suspend ≡ true) (Told r s.patch) _ _ _ _
        (λ w.
          unless_idle w.obj.suspend _ (deferred-Told r _ s.patch laws _ reconcile_resource-Reported)
            w)
        q e h

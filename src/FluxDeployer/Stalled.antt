-- ===== src/FluxDeployer/Stalled.antt =====
-- What becomes of the Stalled condition of a FluxDeployer.
use Prim.Native.String.{◌++◌}
use ocm_controller.Prelude.{ℕ, String, ◌≡◌, ◌≢◌, refl, ◌∙◌, inl, inr, Option, none, some, arith, ap}
use ocm_controller.Prelude.Outcome.{Result-cases}
use ocm_controller.Status.Runtime.{Runtime, RuntimeLaws, stalled}
use ocm_controller.Status.World.{Requeue, return, Exit, next, go_on, panics, unfinished}
use ocm_controller.Status.Effects.{stalled-mark_ready}
use ocm_controller.Status.Finish.{succeed}
use ocm_controller.ComponentVersion.Services.{Stored}
use ocm_controller.Snapshot.Types.{Snapshot}
use ocm_controller.FluxDeployer.Url.{snapshot_repo}
use ocm_controller.FluxDeployer.Types.{FluxServices, Template}
use ocm_controller.FluxDeployer.Sources.{
  Here, create_kustomization_sources, create_helm_sources, reconcile_oci_repo,
  reconcile_kustomization, reconcile_helm_repository, reconcile_helm_release,
}
use ocm_controller.FluxDeployer.Controller.{
  deploy, reconcile, fail_stalled, deploy_kustomization, deploy_helm, get_snapshot_of,
  deploy_snapshot,
}

module _ (r : Runtime) (laws : RuntimeLaws r) (s : FluxServices r) (cert service : String)
    (retry : ℕ) where
  keeps-create_kustomization_sources :
      (url tag : String) (t : Template) (w : Here r s cert)
      → (create_kustomization_sources r s cert url tag t w).1.conditions ≡ w.conditions
  unfolding create_kustomization_sources reconcile_oci_repo reconcile_kustomization
  keeps-create_kustomization_sources url tag t w = ground arith

  keeps-create_helm_sources :
      (url : String) (t : Template) (w : Here r s cert)
      → (create_helm_sources r s cert url t w).1.conditions ≡ w.conditions
  unfolding create_helm_sources reconcile_helm_repository reconcile_helm_release
  keeps-create_helm_sources url t w = ground arith

  keeps-deploy_kustomization :
      (url tag : String) (t : Option Template) (w : Here r s cert)
      → (deploy_kustomization r s cert service retry url tag t w).0 ≡ next tt
      → (deploy_kustomization r s cert service retry url tag t w).1.conditions ≡ w.conditions
  unfolding fail_stalled
  keeps-deploy_kustomization url tag none w h = refl
  keeps-deploy_kustomization url tag (some t) w h =
      ground (arith, keeps-create_kustomization_sources url tag t w)

  keeps-deploy_helm :
      (url : String) (t : Option Template) (w : Here r s cert)
      → (deploy_helm r s cert service retry url t w).0 ≡ next tt
      → (deploy_helm r s cert service retry url t w).1.conditions ≡ w.conditions
  unfolding fail_stalled
  keeps-deploy_helm url none w h = refl
  keeps-deploy_helm url (some t) w h = ground (arith, keeps-create_helm_sources url t w)

  failed-deploy_kustomization :
      (url tag : String) (t : Option Template) (w : Here r s cert) (q : Requeue)
      → (deploy_kustomization r s cert service retry url tag t w).0 ≢ return q none
  unfolding fail_stalled
  failed-deploy_kustomization url tag none w q = λ h. cc
  failed-deploy_kustomization url tag (some t) w q = ground arith

  failed-deploy_helm :
      (url : String) (t : Option Template) (w : Here r s cert) (q : Requeue)
      → (deploy_helm r s cert service retry url t w).0 ≢ return q none
  unfolding fail_stalled
  failed-deploy_helm url none w q = λ h. cc
  failed-deploy_helm url (some t) w q = ground arith

  stalled-deploy :
      (url tag : String) (w : Here r s cert) (q : Requeue)
      → (deploy r s cert service retry url tag w).0 ≡ return q none
      → r.get (deploy r s cert service retry url tag w).1.conditions stalled
        ≡ r.get w.conditions stalled
  unfolding deploy succeed
  stalled-deploy url tag w q h =
      let kust = w.obj.kustomization_template in
      let helm = w.obj.helm_release_template in
      let w₁ = (deploy_kustomization r s cert service retry url tag kust w).1 in
      let w₂ = (deploy_helm r s cert service retry url helm w₁).1 in
      ground (
        arith,
        keeps-deploy_kustomization url tag kust w,
        keeps-deploy_helm url helm w₁,
        failed-deploy_kustomization url tag kust w q,
        failed-deploy_helm url helm w₁ q,
        stalled-mark_ready r laws w₂,
      )

  stalled-deploy_snapshot :
      (snapshot : Stored r.Conditions Snapshot) (w : Here r s cert) (q : Requeue)
      → (deploy_snapshot r s cert service retry snapshot w).0 ≡ return q none
      → r.get (deploy_snapshot r s cert service retry snapshot w).1.conditions stalled
        ≡ r.get w.conditions stalled
  unfolding deploy_snapshot
  stalled-deploy_snapshot snapshot w q h =
      elim (Result-cases (snapshot_repo s.hash snapshot.obj.identity)) [
        | inl (repo, found) ↦
            ground
              (arith, stalled-deploy ("oci://" ++ (service ++ ("/" ++ repo))) snapshot.obj.tag w q)
        | inr failed ↦ ground arith
      ]

  keeps-get_snapshot_of :
      (w : Here r s cert) → (get_snapshot_of r s cert service retry w).1.conditions ≡ w.conditions
  unfolding get_snapshot_of
  keeps-get_snapshot_of w = ground arith

  after_snapshot :
      (x : Exit (Stored r.Conditions Snapshot)) (w : Here r s cert) (q : Requeue)
      → (go_on x (deploy_snapshot r s cert service retry) w).0 ≡ return q none
      → r.get (go_on x (deploy_snapshot r s cert service retry) w).1.conditions stalled
        ≡ r.get w.conditions stalled
  after_snapshot (next snapshot) w q h = stalled-deploy_snapshot snapshot w q h
  after_snapshot (return q' e) w q h = refl
  after_snapshot panics w q h = refl
  after_snapshot unfinished w q h = refl

  -- A reconciliation that returns no error leaves the Stalled condition as it was: an object that
  -- was marked as stalled by an earlier failure keeps the mark when it becomes ready.
  pub reconcile-keeps_stalled :
      (w : Here r s cert) (q : Requeue)
      → (reconcile r s cert service retry w).0 ≡ return q none
      → r.get (reconcile r s cert service retry w).1.conditions stalled ≡ r.get w.conditions stalled
  unfolding reconcile
  reconcile-keeps_stalled w q h =
      let (x, w') = get_snapshot_of r s cert service retry w in
      after_snapshot x w' q h ∙ ap (λ c. r.get c stalled) (keeps-get_snapshot_of w)

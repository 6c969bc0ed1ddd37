-- ===== src/FluxDeployer/Controller.antt =====
-- Reconcile, reconcile and getSnapshot of controllers/fluxdeployer_controller.go.
use Prim.Native.String.{◌++◌}
use ocm_controller.Prelude.{
  ℕ, String, Bool, true, false, ◌||◌, Option, none, some, [], if◌then◌else◌, str_eq,
}
use ocm_controller.Prelude.Outcome.{Error, Result, ok, err, panic, out_of_fuel, plain, wrap}
use ocm_controller.Status.Runtime.{Runtime, ready}
use ocm_controller.Status.World.{
  request, ◌>>=◌, ◌>>◌, Exit, return, no_requeue, requeue_after, Act, modify, read, try, try_step,
  returns,
}
use ocm_controller.Status.Mark.{new_event, error}
use ocm_controller.Status.Finish.{succeed}
use ocm_controller.Component.Names.{NamespacedName}
use ocm_controller.ComponentVersion.Services.{Stored}
use ocm_controller.Snapshot.Types.{Snapshot}
use ocm_controller.FluxDeployer.Types.{FluxDeployer, FluxServices, Source, Template}
use ocm_controller.FluxDeployer.Sources.{Here, create_kustomization_sources, create_helm_sources}
use ocm_controller.FluxDeployer.Url.{snapshot_repo}

abbrev pub or_default : String → String → String
or_default text default = if str_eq text "" then default else text

module _ (r : Runtime) (s : FluxServices r) (cert_secret_name registry_service_name : String)
    (retry_interval : ℕ) where
  open s use {Cluster, get_object, new_helper, patch, get_source, get_snapshot, hash}

  abbrev pub Step : Type 0 → Type 0
  Step = Act (Here r s cert_secret_name)

  -- the defaults that getSnapshot writes into the object
  abbrev pub complete_ref : Here r s cert_secret_name → Here r s cert_secret_name
  complete_ref w = record w {
    obj = record (w.obj) {
      source_ref = record (w.obj.source_ref) {
        api_version = or_default w.obj.source_ref.api_version "delivery.ocm.software/v1alpha1";
        namespace = or_default w.obj.source_ref.namespace w.obj.key.namespace;
      };
    };
  }

  abbrev pub snapshot_name_of : Source → Result String
  snapshot_name_of (ok (some name)) = ok name
  snapshot_name_of (ok none) = err (plain "snapshot name not found in status")
  snapshot_name_of (err e) = err (wrap "failed get the get snapshot" e)
  snapshot_name_of panic = panic
  snapshot_name_of out_of_fuel = out_of_fuel

  -- the block under an error of getSnapshot
  abbrev pub missing : {A : Type 0} → Error → Step A
  missing e = returns (requeue_after retry_interval) none

  unfoldable pub get_snapshot_of : Step (Stored r.Conditions Snapshot)
  get_snapshot_of = do
    modify complete_ref
    src ← try (λ w. get_source w.cluster w.obj.source_ref) missing
    name ← try (λ _. snapshot_name_of src) missing
    try
        (λ w.
          get_snapshot w.cluster (record { namespace = w.obj.source_ref.namespace; name = name }))
        missing

  -- MarkFalse, MarkStalled and the event, where the sources cannot be created
  unfoldable pub fail_stalled : String → Error → Step (Unit {0})
  fail_stalled reason e w = (
    return no_requeue (some e),
    new_event r error []
        (record w { conditions = r.mark_stalled (r.mark_false w.conditions ready reason) reason }),
  )

  abbrev pub deploy_kustomization : String → String → Option Template → Step (Unit {0})
  deploy_kustomization url tag none = modify λ w. w
  deploy_kustomization url tag (some template) =
      try_step (create_kustomization_sources r s cert_secret_name url tag template)
        (fail_stalled "CreateOrUpdateKustomizationFailed")

  abbrev pub deploy_helm : String → Option Template → Step (Unit {0})
  deploy_helm url none = modify λ w. w
  deploy_helm url (some template) =
      try_step (create_helm_sources r s cert_secret_name url template)
        (fail_stalled "CreateOrUpdateHelmFailed")

  abbrev pub both : Option Template → Option Template → Bool
  both (some a) (some b) = true
  both _ _ = false

  -- from the URL of the snapshot on
  unfoldable pub deploy : String → String → Step (Unit {0})
  deploy url tag = do
    kust ← read λ w. w.obj.kustomization_template
    helm ← read λ w. w.obj.helm_release_template
    (if both kust helm
        then returns no_requeue
            (some (plain "can't define both kustomization template and helm release template"))
        else (do
          deploy_kustomization url tag kust
          deploy_helm url helm
          succeed r (λ _. no_requeue)))

  -- reconcile, once the snapshot was found
  unfoldable pub deploy_snapshot : Stored r.Conditions Snapshot → Step (Unit {0})
  deploy_snapshot snapshot =
      if r.is_false snapshot.conditions ready
      then returns (requeue_after retry_interval) none
      else (do
        repo ←
            try (λ _. snapshot_repo hash snapshot.obj.identity) (λ e. returns no_requeue (some e))
        deploy ("oci://" ++ (registry_service_name ++ ("/" ++ repo))) snapshot.obj.tag)

  unfoldable pub reconcile : Step (Unit {0})
  reconcile = do snapshot ← get_snapshot_of; deploy_snapshot snapshot

  -- the deferred function, which ignores the error of the patch
  unfoldable pub finish : Here r s cert_secret_name → Here r s cert_secret_name
  finish w =
      let w' =
        if r.is_stalled w.conditions || r.is_ready w.conditions
        then record w { observed_generation = some w.generation }
        else w in
      record w' { cluster = (patch w').1 }

  unfoldable pub reconcile_object : Step (Unit {0})
  reconcile_object w = elim (new_helper w) [
    | some e ↦ (return no_requeue (some e), w)
    | none ↦ let (x, w') = reconcile w in (x, finish w')
  ]

  abbrev pub load : Stored r.Conditions FluxDeployer → Cluster → Here r s cert_secret_name
  load o k = record {
    obj = o.obj;
    generation = o.generation;
    observed_generation = o.observed_generation;
    conditions = o.conditions;
    events = [];
    cluster = k;
  }

  -- Reconcile: how it ends, and the world that it leaves if the object was there.
  unfoldable pub reconcile_request :
      NamespacedName → Cluster → Exit (Unit {0}) × Option (Here r s cert_secret_name)
  reconcile_request key k =
      request "failed to get deployer object" (get_object k key) (λ o. load o k) reconcile_object

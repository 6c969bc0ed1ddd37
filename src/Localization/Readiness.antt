-- ===== src/Localization/Readiness.antt =====
-- checkReadiness and checkFluxSourceReadiness of controllers/localization_controller.go.
use ocm_controller.Prelude.{String, Bool, none, some, if◌then◌else◌, str_eq}
use ocm_controller.Prelude.Outcome.{Result, ok, err, panic, out_of_fuel, plain, wrap, context}
use ocm_controller.Status.Runtime.{Runtime}
use ocm_controller.Ocm.Credentials.{◌>>=◌, in_namespace}
use ocm_controller.FluxDeployer.Types.{ObjectReference, Source}
use ocm_controller.FluxDeployer.Controller.{or_default}
use ocm_controller.Localization.Types.{LocalizationServices}

abbrev pub is_component_version : ObjectReference → Bool
is_component_version ref = str_eq ref.kind "ComponentVersion"

-- the defaults that checkReadiness writes into the reference
unfoldable pub complete : String → ObjectReference → ObjectReference
complete ns ref =
    if is_component_version ref
    then record ref { namespace = or_default ref.namespace ns }
    else record ref {
      api_version = or_default ref.api_version "delivery.ocm.software/v1alpha1";
      namespace = or_default ref.namespace ns;
    }

abbrev pub snapshot_name_in : Source → Result String
snapshot_name_in (ok (some name)) = ok name
snapshot_name_in (ok none) = err (plain "snapshot name not found on src.Object")
snapshot_name_in (err e) = err (wrap "failed to get snapshot name" e)
snapshot_name_in panic = panic
snapshot_name_in out_of_fuel = out_of_fuel

module _ (r : Runtime) (s : LocalizationServices r) where
  open s use {Cluster, get_component_version, get_source, get_snapshot, get_git_repository}

  abbrev pub snapshot_ready : Cluster → ObjectReference → Result Bool
  snapshot_ready k ref = do
    src ← context "failed to get resource for gvr" (get_source k ref)
    name ← snapshot_name_in src
    snapshot ←
        context "failed to retrieve snapshot for name"
          (get_snapshot k (in_namespace ref.namespace name))
    ok (r.is_ready snapshot.conditions)

  -- checkReadiness, of a reference that `complete` has completed
  unfoldable pub check_readiness : Cluster → ObjectReference → Result Bool
  check_readiness k ref =
      if is_component_version ref
      then (do
        cv ←
            context "failed to find component version source"
              (get_component_version k (in_namespace ref.namespace ref.name))
        ok (r.is_ready cv.conditions))
      else snapshot_ready k ref

  unfoldable pub check_flux_source_readiness : Cluster → ObjectReference → Result Bool
  check_flux_source_readiness k ref =
      if str_eq ref.kind "GitRepository"
      then (do
        conditions ←
            context "failed to check flux source readiness"
              (get_git_repository k (in_namespace ref.namespace ref.name))
        ok (r.is_ready conditions))
      else err (plain "kind not compatible")

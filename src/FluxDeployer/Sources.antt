-- ===== src/FluxDeployer/Sources.antt =====
-- The Flux objects of a FluxDeployer: reconcileOCIRepo, reconcileKustomization,
-- reconcileHelmRepository, reconcileHelmRelease, and the two functions that call them in pairs.
use Prim.Native.String.{◌++◌}
use ocm_controller.Prelude.{String, false, [], if◌then◌else◌}
use ocm_controller.Prelude.Outcome.{◌>>=◌, Result, ok, context, in_context, Op}
use ocm_controller.Status.Runtime.{Runtime}
use ocm_controller.Status.World.{World}
use ocm_controller.FluxDeployer.Types.{
  FluxDeployer, FluxServices, FluxObject, FluxSpec, empty, oci_repository, helm_repository,
  kustomization, helm_release, FluxKind, oci_repository_kind, helm_repository_kind,
  kustomization_kind, helm_release_kind, Template,
}

module _ (r : Runtime) (s : FluxServices r) (cert_secret_name : String) where
  open s use {Cluster, create_or_update, set_owner_reference}

  abbrev pub Here : Type 0
  Here = World r.Conditions Cluster FluxDeployer

  -- an object of the deployer's own name
  abbrev pub blank : FluxKind → FluxDeployer → FluxObject
  blank kind obj = record {
    flux_kind = kind;
    key = obj.key;
    created = false;
    owners = [];
    spec = empty;
  }

  -- the function handed to CreateOrUpdate
  abbrev pub fill : String → FluxDeployer → FluxSpec → FluxObject → Result FluxObject
  fill msg obj spec o = elim (if o.created then ok o else context msg (set_owner_reference obj o)) [
    | ok o' ↦ ok (record o' { spec = spec })
    | other ↦ other
  ]

  abbrev pub write : FluxKind → String → String → FluxSpec → Op Here FluxObject
  write kind msg owner_msg spec w =
      let (x, k) = create_or_update (blank kind w.obj) (fill owner_msg w.obj spec) w.cluster in
      (context msg x, record w { cluster = k })

  abbrev pub set_kustomization : FluxObject → Op Here (Unit {0})
  set_kustomization o w = (
    ok tt,
    record w { obj = record (w.obj) { kustomization = o.key.namespace ++ ("/" ++ o.key.name) } },
  )

  unfoldable pub reconcile_oci_repo : String → String → Op Here FluxObject
  reconcile_oci_repo url tag w =
      write oci_repository_kind "failed to create reconcile oci repo"
        "failed to set owner reference on oci repository source"
        (oci_repository w.obj.interval cert_secret_name url tag) w

  -- the template with the OCI repository of the deployer as its source
  abbrev pub from_oci : FluxDeployer → Template → Template
  from_oci obj t = record t {
    source_kind = "OCIRepository";
    source_namespace = obj.key.namespace;
    source_name = obj.key.name;
  }

  unfoldable pub reconcile_kustomization : Template → Op Here (Unit {0})
  reconcile_kustomization template = do
    o ← λ w.
        write kustomization_kind "failed to create reconcile kustomization"
          "failed to set owner reference on oci repository source"
          (kustomization (from_oci w.obj template)) w
    set_kustomization o

  unfoldable pub reconcile_helm_repository : String → Op Here FluxObject
  reconcile_helm_repository url w =
      write helm_repository_kind "failed to create reconcile oci repo"
        "failed to set owner reference on helm repository source"
        (helm_repository w.obj.interval cert_secret_name url "oci") w

  abbrev pub from_helm : FluxDeployer → Template → Template
  from_helm obj t = record t {
    source_kind = "HelmRepository";
    source_namespace = obj.key.namespace;
    source_name = obj.key.name;
  }

  unfoldable pub reconcile_helm_release : Template → Op Here (Unit {0})
  reconcile_helm_release template = do
    o ← λ w.
        write helm_release_kind "failed to create reconcile kustomization"
          "failed to set owner reference on oci repository source"
          (helm_release (from_helm w.obj template)) w
    set_kustomization o

  unfoldable pub create_kustomization_sources : String → String → Template → Op Here (Unit {0})
  create_kustomization_sources url tag template = do
    repo ← in_context "failed to create OCI repository" (reconcile_oci_repo url tag)
    in_context "failed to create Kustomization object" (reconcile_kustomization template)

  unfoldable pub create_helm_sources : String → Template → Op Here (Unit {0})
  create_helm_sources url template = do
    repo ← in_context "failed to create OCI repository" (reconcile_helm_repository url)
    in_context "failed to create Kustomization object" (reconcile_helm_release template)

-- ===== src/Examples/Deployments.antt =====
-- The Resource and FluxDeployer controllers at a resource and at a deployer of its snapshot.
use ocm_controller.Prelude.{ℕ, ◌≡◌, refl, String, true, false, none, some, List, [], ◌∷◌}
use ocm_controller.Prelude.Text.{decimal, before_slash}
use ocm_controller.Prelude.Outcome.{
  Error, ok, err, not_found, transport, Result, context, wrap, is_not_found,
}
use ocm_controller.Status.Runtime.{stalled}
use ocm_controller.Status.World.{return, no_requeue}
use ocm_controller.Status.Mark.{
  update_status, mark_retrying, observe_generation, mark_not_ready, mark_ready, new_event, progress,
}
use ocm_controller.Status.Finish.{fail, fail_with, succeed, requeue}
use ocm_controller.Status.Deferred.{Ends, Told}
use ocm_controller.Component.Names.{
  NamespacedName, Identity, construct_repository_name, hash_identity,
}
use ocm_controller.ComponentVersion.Services.{Stored}
use ocm_controller.Snapshot.Types.{Snapshot}
use ocm_controller.Resource.Types.{ResourceServices, ResourceObject}
use ocm_controller.Resource.Controller as Resource
use ocm_controller.Resource.Reported.{request_resource-Told}
use ocm_controller.FluxDeployer.Types.{FluxServices, FluxObject}
use ocm_controller.FluxDeployer.Sources.{
  Here, create_kustomization_sources, reconcile_oci_repo, reconcile_kustomization,
}
use ocm_controller.FluxDeployer.Url.{snapshot_repo, snapshot_repo-hash_identity}
use ocm_controller.FluxDeployer.Controller.{
  reconcile, deploy, deploy_snapshot, get_snapshot_of, fail_stalled,
}
use ocm_controller.FluxDeployer.Stalled.{reconcile-keeps_stalled}
use ocm_controller.Examples.Conditions.{conditions, conditions-laws, unknown}

abbrev seven : Identity → Result ℕ
seven identity = ok 7

abbrev chart : Identity
chart = ("component-name", "app") ∷ ("helmChart", "podinfo") ∷ []

snapshot_repo-hash_identity_example :
    snapshot_repo seven chart
    ≡ context "failed to create hash for identity" (hash_identity seven chart)
snapshot_repo-hash_identity_example = snapshot_repo-hash_identity seven chart

-- the snapshot of a chart, whose Ready condition is not there yet
abbrev stored : Stored conditions.Conditions Snapshot
stored = record {
  obj = record {
    key = record { namespace = "ocm-system"; name = "app-snapshot" };
    deleted = false;
    finalizers = [];
    owners = [];
    identity = chart;
    digest = "sha256:2";
    tag = "v2.0.0";
    suspend = false;
    last_reconciled_digest = "";
    last_reconciled_tag = "";
    repository_url = "";
  };
  generation = 1;
  observed_generation = none;
  conditions = unknown;
}

abbrev write :
    FluxObject → (FluxObject → Result FluxObject) → List String → Result FluxObject × List String
write o f k = (f o, o.key.name ∷ k)

abbrev flux : FluxServices conditions
flux = record {
  Cluster = List String;
  get_object = λ k key. err not_found;
  new_helper = λ w. none;
  patch = λ w. (none, w.cluster);
  get_source = λ k ref. ok (ok (some "app-snapshot"));
  get_snapshot = λ k key. ok stored;
  create_or_update = write;
  set_owner_reference = λ obj o. ok o;
  hash = seven;
}

abbrev deployer : Here conditions flux "certs"
deployer = record {
  obj = record {
    key = record { namespace = "ocm-system"; name = "app" };
    source_ref = record { api_version = ""; kind = "Resource"; namespace = ""; name = "app" };
    interval = 600;
    kustomization_template =
        some
          (record { source_kind = ""; source_namespace = ""; source_name = ""; rest = "path: ./" });
    helm_release_template = none;
    kustomization = "";
  };
  generation = 1;
  observed_generation = none;
  conditions = conditions.mark_stalled unknown "CreateOrUpdateKustomizationFailed";
  events = [];
  cluster = [];
}

deployer_succeeds :
    (reconcile conditions flux "certs" "registry" 60 deployer).0 ≡ return no_requeue none
unfolding reconcile deploy deploy_snapshot get_snapshot_of fail_stalled succeed mark_ready new_event
    create_kustomization_sources reconcile_oci_repo reconcile_kustomization snapshot_repo
    construct_repository_name hash_identity before_slash decimal
deployer_succeeds = refl

reconcile-keeps_stalled_example :
    (reconcile conditions flux "certs" "registry" 60 deployer).1.conditions stalled
    ≡ deployer.conditions stalled
reconcile-keeps_stalled_example =
    reconcile-keeps_stalled conditions conditions-laws flux "certs" "registry" 60 deployer
      no_requeue deployer_succeeds

abbrev stored_resource : Stored conditions.Conditions ResourceObject
stored_resource = record {
  obj = record {
    key = record { namespace = "ocm-system"; name = "app" };
    interval = 600;
    source_ref = record { namespace = ""; name = "app"; resource_ref = none };
    suspend = false;
    last_applied_resource_version = "";
    last_applied_component_version = "";
    snapshot_name = "app-abcdefg";
  };
  generation = 1;
  observed_generation = none;
  conditions = unknown;
}

-- a cluster without the component version
abbrev resources : ResourceServices conditions
resources = record {
  Cluster = List String;
  Octx = Unit {0};
  Data = String;
  get_object = λ k key. ok stored_resource;
  patch = λ w. (none, w.cluster);
  random_string = λ k. ok "abcdefg";
  get_component_version = λ k key. err (transport 500 []);
  get_descriptor = λ k key. err not_found;
  create_authenticated_ocm_context = λ k cv. ok tt;
  get_resource = λ octx cv ref k. (ok ("content", "sha256:2"), k);
  create_or_update = λ o f k. (f o, k);
  set_owner_reference = λ obj o. ok o;
}

abbrev resource_key : NamespacedName
resource_key = record { namespace = "ocm-system"; name = "app" }

abbrev no_version : Error
no_version = wrap "failed to get component version" (transport 500 [])

resource_fails :
    (Resource.reconcile_request conditions resources resource_key []).0
    ≡ return no_requeue (some no_version)
unfolding Resource.reconcile_request Resource.reconcile_object update_status mark_retrying
    observe_generation Resource.reconcile_resource Resource.reconcile requeue fail fail_with
    mark_not_ready new_event progress is_not_found
resource_fails = refl

request_resource-Told_example :
    Ends "failed to get resource object"
      (resources.get_object [] resource_key)
      (λ o. Resource.load conditions resources o [])
      (λ w. w.obj.suspend ≡ true)
      (Told conditions resources.patch)
      no_requeue
      (some no_version)
      (Resource.reconcile_request conditions resources resource_key []).1
request_resource-Told_example =
    request_resource-Told conditions conditions-laws resources resource_key [] no_requeue
      (some no_version) resource_fails

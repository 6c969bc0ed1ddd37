-- ===== src/Examples/Mutations.antt =====
-- A concrete localization and configuration, and what the mutation looper calls.
use Prim.Native.String.{◌++◌}
use ocm_controller.Prelude.{String, none, some, List, [], ◌∷◌, str_eq, if◌then◌else◌, false}
use ocm_controller.Prelude.Outcome.{ok, err, not_found}
use ocm_controller.Status.Runtime.{ready}
use ocm_controller.ComponentVersion.Services.{Stored}
use ocm_controller.Snapshot.Types.{Snapshot}
use ocm_controller.Mutation.Types.{MutationObject, DataReference, PatchStrategicMerge, localizes}
use ocm_controller.Mutation.Values.{no_texts}
use ocm_controller.Mutation.Services.{
  MutationServices, ConfigData, oci_artifact, LocalizationRule, GitSource,
}
use ocm_controller.Mutation.Looper.{Here}
use ocm_controller.Examples.Conditions.{conditions, unknown}
use ocm_controller.Examples.Repository.{app}

abbrev pub snapshot : Stored conditions.Conditions Snapshot
snapshot = record {
  obj = record {
    key = record { namespace = "ocm-system"; name = "app-snapshot" };
    deleted = false;
    finalizers = [];
    owners = [];
    identity = ("component-name", "app") ∷ ("component-version", "v2.0.0") ∷ [];
    digest = "sha256:2";
    tag = "7";
    suspend = false;
    last_reconciled_digest = "sha256:2";
    last_reconciled_tag = "7";
    repository_url = "";
  };
  generation = 1;
  observed_generation = some 1;
  conditions = conditions.mark_true unknown ready "Succeeded";
}

abbrev pub rule : LocalizationRule
rule = record {
  resource = "image";
  file = "deploy.yaml";
  registry = "spec.registry";
  mapping = none;
  repository = "";
  image = "spec.image";
  tag = "";
}

abbrev config : ConfigData
config = record { defaults = "{}"; schema = "{}"; rules = []; localization = rule ∷ [] }

abbrev git : GitSource
git = record {
  key = record { namespace = "flux-system"; name = "patches" };
  artifact = some (record { url = "http://source"; revision = "main"; digest = "sha256:9" });
}

-- Rules are the paths that they write, and the cluster is what was done, the last first.
abbrev pub services : MutationServices conditions
services = record {
  Cluster = List String;
  Octx = Unit {0};
  Access = Unit {0};
  Resource = String;
  Descriptor = Unit {0};
  Data = String;
  Bytes = String;
  Rules = List String;
  get_source = λ k ref. ok (ok (some "app-snapshot"));
  get_snapshot = λ k key. ok snapshot;
  get_component_version = λ k key.
      ok (record { obj = app; generation = 1; observed_generation = some 1; conditions = unknown });
  get_git_repository = λ k key. ok git;
  get_config_map = λ k key. err not_found;
  create_authenticated_ocm_context = λ k cv. ok tt;
  get_resource = λ octx cv ref k. (ok "config", k);
  get_component_version_access = λ k octx cv name version. ok tt;
  fetch_data_by_digest = λ k name digest. ok "archive";
  write_snapshot = λ obj dir id k. (ok "sha256:3", ("write " ++ dir) ∷ k);
  hash = λ identity. ok 7;
  auto_decompress = λ d. ok d;
  read_all = λ d. ok d;
  size = λ b. if str_eq b "" then 0 else 1;
  is_tar = λ b. str_eq b "archive";
  new_temp_fs = λ k. (ok "/tmp/fs", "make /tmp/fs" ∷ k);
  mkdir_temp = λ k. (ok "/tmp/kustomization", "make /tmp/kustomization" ∷ k);
  remove_all = λ dir k. ("remove " ++ dir) ∷ k;
  extract_tar = λ dir b k. (ok tt, ("extract to " ++ dir) ∷ k);
  join_path = λ dir name. dir ++ ("/" ++ name);
  secure_join = λ dir name. ok (dir ++ ("/" ++ name));
  read_file = λ k path. err not_found;
  write_file = λ path b k. (ok tt, ("put " ++ path) ∷ k);
  remove_file = λ path k. (ok tt, k);
  base_dir = λ path. path;
  fetch_archive = λ url digest dir k. (ok tt, k);
  gzip = λ b. ok b;
  untar = λ b dir k. (ok tt, k);
  marshal_kustomization = λ kus. ok "kustomization";
  secure_build = λ dir work k. (ok "patched", k);
  config_data = λ b. ok config;
  text_bytes = λ t. t;
  yaml_map = λ b. ok (some no_texts);
  map_json = λ m. ok "{}";
  object_fields = λ t. ok (some []);
  rules_json = λ rules. "[]";
  marshal_fields = λ fields. ok "{}";
  no_rules = [];
  add_rule = λ rules name file path v. ok (path ∷ rules);
  is_empty = λ rules. false;
  substitute = λ rules dir k. (ok tt, ("substitute in " ++ dir) ∷ k);
  validate_by_scheme = λ values schema. ok tt;
  cascade_with = λ t. ok [];
  resolve_resource = λ access name path. ok name;
  access_of = λ res. ok (oci_artifact "ghcr.io/app:v2");
  access_spec_for_spec = λ octx t. ok (oci_artifact "ghcr.io/app:v2");
  parse_reference = λ t. ok (record {
    registry = "ghcr.io";
    repository = "app";
    full_name = "ghcr.io/app:v2";
    identifier = "v2";
  });
  compile_mapping = λ k cv t. err not_found;
}

abbrev pub source : DataReference
source = record {
  ref = record {
    api_version = "delivery.ocm.software/v1alpha1";
    kind = "Resource";
    namespace = "ocm-system";
    name = "app";
  };
  resource_ref = none;
}

abbrev config_source : DataReference
config_source = record {
  ref = record {
    api_version = "";
    kind = "ComponentVersion";
    namespace = "ocm-system";
    name = "app";
  };
  resource_ref =
      some (record { name = "config"; version = ""; extra_identity = []; reference_path = [] });
}

abbrev pub localization : MutationObject
localization = record {
  kind = localizes;
  key = record { namespace = "ocm-system"; name = "app" };
  resource_version = "7";
  interval = 600;
  source_ref = source;
  config_ref = some config_source;
  values = none;
  values_from = none;
  patch = none;
  suspend = false;
  latest_snapshot_digest = "";
  latest_source_version = "";
  latest_config_version = "";
  latest_patch_source_version = "";
  snapshot_name = "app-abcdefg";
}

abbrev pub patch : PatchStrategicMerge
patch = record {
  source_ref = record {
    api_version = "";
    kind = "GitRepository";
    namespace = "flux-system";
    name = "patches";
  };
  source_path = "deploy.yaml";
  target_path = "patch.yaml";
}

abbrev pub in_world : MutationObject → Here conditions services
in_world obj = record {
  obj = obj;
  generation = 1;
  observed_generation = none;
  conditions = unknown;
  events = [];
  cluster = [];
}

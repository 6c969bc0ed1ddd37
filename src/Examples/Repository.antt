-- ===== src/Examples/Repository.antt =====
-- A small repository: the component "app", with versions and a signature, which refers to "lib",
-- which refers to "base". A component version is known by the name of its component, and what was
-- written to the cluster is a list of texts.
use ocm_controller.Prelude.{
  ℕ, String, Bool, true, false, Option, none, some, List, [], ◌∷◌, arith, ltb, leb, nat_eq, str_eq,
  if◌then◌else◌,
}
use ocm_controller.Prelude.Outcome.{Result, ok, err, not_found}
use ocm_controller.Component.Names.{NamespacedName}
use ocm_controller.Component.References.{reference, no_more}
use ocm_controller.ComponentVersion.Types.{ComponentVersion}
use ocm_controller.ComponentVersion.Services.{ComponentReference, DescriptorObject, Services}
use ocm_controller.ComponentVersion.Client.{Rest, client_services}
use ocm_controller.Ocm.Library.{Library, Descriptor}
use ocm_controller.Ocm.Latest.{IsOrder}
use ocm_controller.Examples.Conditions.{conditions}

abbrev parse : String → Option ℕ
parse v =
    if str_eq v "1.0.0"
    then some 1
    else if str_eq v "v2.0.0"
    then some 2
    else if str_eq v "3.0.0"
    then some 3
    else none

abbrev pub greater : ℕ → ℕ → Bool
greater a b = ltb b a

pub greater-IsOrder : IsOrder greater
greater-IsOrder = record {
  asymmetric = λ a b h. ground arith;
  transitive = λ a b c h i. ground arith;
}

abbrev pub app_key : NamespacedName
app_key = record { namespace = "ocm-system"; name = "app-descriptor" }

abbrev descriptor : NamespacedName → Result Descriptor
descriptor key =
    if str_eq key.name "app-descriptor"
    then ok (record { name = "app"; version = "v2.0.0" })
    else err not_found

abbrev pub library : Library
library = record {
  Cluster = List String;
  Octx = Unit {0};
  Repo = Unit {0};
  Component = List String;
  Access = String;
  Resource = String;
  Method = String;
  Semver = ℕ;
  Constraint = ℕ;
  Credentials = List (String × String);
  Options = String;
  Data = String;
  get_secret = λ k key. ok (("release", "the key") ∷ []);
  get_service_account = λ k key. ok [];
  get_descriptor = λ k key. descriptor key;
  new_context = tt;
  repository_for_config = λ octx text. ok octx;
  parse_url = λ url. ok (record { scheme = "oci"; host = url });
  new_credentials = λ props. props;
  set_credentials = λ octx consumer creds. octx;
  repository_for_spec = λ k octx url. ok tt;
  lookup_component = λ k repo name. ok ("1.0.0" ∷ "3.0.0" ∷ "nightly" ∷ "v2.0.0" ∷ []);
  list_versions = λ k component. ok component;
  lookup_component_version = λ k repo name version. ok name;
  new_version = parse;
  greater_than = greater;
  new_constraint = λ text. ok 2;
  validate = λ c v. leb v c;
  decode_base64 = λ text. ok text;
  new_options = λ repo name cert. cert;
  complete = λ opts octx. ok opts;
  apply_signing = λ cv opts. ok "sha256:1";
  signatures = λ cv. ("release", "sha256:1") ∷ [];
  resolve_reference = λ k cv name path. ok name;
  resource_type = λ res. "blob";
  access_method = λ k res. ok res;
  reader = λ k method. ok "content";
  download = λ k cv res. ok "chart.tgz";
  read_file = λ k path. ok "chart";
  auto_decompress = λ content. ok content;
  hash = λ identity. ok 7;
  is_cached = λ k name version. ok false;
  fetch_data_by_identity = λ k name version. ok ("content", "sha256:2");
  push_data = λ content media name version k. (ok "sha256:2", name ∷ k);
  fetch_data_by_digest = λ k name digest. ok "content";
}

abbrev pub app : ComponentVersion
app = record {
  key = record { namespace = "ocm-system"; name = "app" };
  spec = record {
    component = "app";
    semver = "<3.0.0";
    repository = record { url = "ghcr.io/app"; secret_ref = none };
    interval = 600;
    verify =
        (record { name = "release"; public_key = record { secret_ref = some "keys"; value = "" } })
        ∷ [];
    expand = true;
    suspend = false;
    service_account_name = "";
  };
  component_descriptor = reference "app" "v2.0.0" no_more [] app_key;
  reconciled_version = "1.0.0";
}

abbrev pub ref_to : String → ComponentReference
ref_to name = record { name = name; component_name = name; version = "1.0.0"; extra_identity = [] }

abbrev pub references_of : String → List ComponentReference
references_of name =
    if str_eq name "app"
    then ref_to "lib" ∷ []
    else if str_eq name "lib"
    then ref_to "base" ∷ []
    else []

abbrev write :
    DescriptorObject String
    → (DescriptorObject String → Result (DescriptorObject String))
    → List String
    → Result (DescriptorObject String) × List String
write d f k = (f d, d.key.name ∷ k)

abbrev pub rest : Rest conditions library
rest = record {
  Spec = String;
  Converted = String;
  Semver = ℕ;
  get_object = λ k key. err not_found;
  patch = λ w. (none, w.cluster);
  create_or_update = write;
  set_owner_reference = λ obj d. ok d;
  empty_spec = "";
  references = references_of;
  convert = λ a. ok a;
  converted_name = λ c. c;
  converted_version = λ c. "v2.0.0";
  converted_spec = λ c. some c;
  hash = λ scheme. ok 5;
  parse_semver = λ v. elim (parse v) [ none ↦ ok 0 | some n ↦ ok n ];
  semver_equal = nat_eq;
  semver_greater = greater;
}

abbrev pub services : Services conditions
services = client_services conditions library rest

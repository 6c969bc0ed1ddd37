-- ===== src/Examples/Registries.antt =====
-- The cache over a registry that has room for one image, and a push, a fetch and a deletion.
use mathlib.Core.Path.{subst}
use ocm_controller.Prelude.{String, ◌≡◌, refl, ap, Option, none, some, [], ◌∷◌, true, false}
use ocm_controller.Prelude.Outcome.{Result, ok, err, transport, as_transport}
use ocm_controller.Cache.Contract.{IsCache}
use ocm_controller.Cache.Registry.{Registry}
use ocm_controller.Cache.Repository.{
  contains_text, push_streaming_image, parse_reference, compute_stream_blob,
}
use ocm_controller.Cache.Laws.{RegistryLaws, IsTagged, IsMissing}
use ocm_controller.Cache.Client.{
  Session, oci_cache, push_data, new_repository, with_transport, setup_certificates,
  read_certificates,
}
use ocm_controller.Cache.Opened.{IsTag}
use ocm_controller.Cache.Stored.{oci_cache-IsCache}

-- the answer for what is there, or 404
abbrev there : {A : Type 0} → Option String → A → Result A
there none a = err (transport 404 [])
there (some content) a = ok a

abbrev content_of : Option String → Result String
content_of none = err (transport 404 [])
content_of (some content) = ok content

abbrev pub registry : Registry
registry = record {
  Remote = Option String;
  Reference = String;
  Layer = String;
  Image = String;
  Descriptor = String;
  Data = String;
  get_secret = λ k key. ok (("tls.crt", "cert") ∷ ("tls.key", "key") ∷ ("ca.crt", "ca") ∷ []);
  new_repository_name = λ s. ok s;
  parse_name = λ s. ok s;
  new_tag = λ s. ok s;
  new_digest = λ s. ok s;
  reference_text = λ s. s;
  head = λ k t ref. there k "sha256:1";
  get = λ k t ref. content_of k;
  layer = λ k t ref. content_of k;
  write = λ t ref image k. (ok tt, some image);
  delete = λ t ref k. (ok tt, none);
  uncompressed = λ k layer. ok layer;
  image_of = λ k d. ok d;
  raw_manifest = λ d. ok d;
  layers_of = λ k image. ok (image ∷ []);
  media_type = λ layer. ok "";
  digest = λ layer. ok "sha256:1";
  size = λ layer. ok 1;
  stream_layer = λ d type. d;
  append_layer = λ layer. ok layer;
  annotate = λ annotations image. some image;
  with_config_media_type = λ type image. image;
  with_media_type = λ type image. image;
  manifest_layers = λ k image. ok ("sha256:1" ∷ []);
  manifest_annotations = λ raw. ok [];
  equal_fold = λ a b. false;
}

written : (t : _) (repo ref image : String) → IsTagged registry t repo ref image image (some image)
written t repo ref image = record {
  manifest_digest = "sha256:1";
  descriptor = image;
  raw = image;
  found_image = image;
  found_layer = image;
  type = "";
  digest = "sha256:1";
  size = 1;
  blob_reference = _;
  blob = image;
  head = refl;
  get = refl;
  raw_manifest = refl;
  image_of = refl;
  layers_of = refl;
  media_type_of = refl;
  digest_of = refl;
  size_of = refl;
  manifest_layers = refl;
  new_digest = refl;
  layer = refl;
  uncompressed = refl;
}

digest_found : contains_text "sha256:" "sha256:1" ≡ true
unfolding contains_text
digest_found = refl

digest_is :
    (k : Option String) (digest : String)
    → there k "sha256:1" ≡ ok digest
    → contains_text "sha256:" digest ≡ true
digest_is none digest h = cc
digest_is (some content) digest h =
    let e : "sha256:1" ≡ digest = cc h in
    subst (λ s. contains_text "sha256:" s ≡ true) e digest_found

pub registry-laws : RegistryLaws registry
unfolding as_transport
registry-laws = record {
  contents = λ image. image ∷ [];
  contents-append = λ d type image h. cc;
  contents-config_type = λ type image. refl;
  contents-media_type = λ type image. refl;
  parse-text = λ s ref h. refl;
  parse-tag = λ s ref h. h;
  write-IsTagged = λ t repo tag ref image d k k' parsed one h.
      subst (λ k''. IsTagged registry t repo ref image d k'') (ap (λ x. x.1) h)
        (subst (λ d'. IsTagged registry t repo ref image d' (some image)) (cc one)
          (written t repo ref image));
  head-digest = λ t ref k digest h. digest_is k digest h;
  delete-IsMissing = λ t repo tag digest ref manifest k k' parsed found by_digest h.
      subst (IsMissing registry t ref) (ap (λ x. x.1) h)
        (record { error = transport 404 []; codes = []; head = refl; status = refl });
}

oci_cache-IsCache_example : IsCache (oci_cache registry) (IsTag registry)
oci_cache-IsCache_example = oci_cache-IsCache registry registry-laws

abbrev pub session : Session (Option String)
session = record {
  client = record {
    oci_repository_addr = "registry:5000";
    insecure_skip_verify = false;
    has_client = true;
    namespace = "ocm-system";
    cert_secret_name = "certificates";
    cert_pem = none;
    key_pem = none;
    ca = none;
  };
  remote = none;
}

push_ends : (push_data registry "data" "" "sha-7" "v2.0.0" session).0 ≡ ok "sha256:1"
unfolding push_data new_repository with_transport setup_certificates read_certificates
    push_streaming_image parse_reference contains_text compute_stream_blob
push_ends = refl

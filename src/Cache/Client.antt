-- ===== src/Cache/Client.antt =====
-- Client of pkg/oci/repository.go: the five operations of the cache, and the certificates that the
-- client reads before its first call.
use Prim.Native.String.{◌++◌}
use ocm_controller.Prelude.{
  String, Bool, true, false, not, ◌&&◌, ◌||◌, Option, none, some, List, [], ◌∷◌, if◌then◌else◌,
  lookup,
}
use ocm_controller.Prelude.Outcome.{
  Result, ok, err, plain, Op, reading, in_context, lift, pure, ◌>>=◌,
}
use ocm_controller.Ocm.Credentials.{in_namespace}
use ocm_controller.Cache.Registry.{Registry, Transport, default_transport, tls}
use ocm_controller.Cache.Contract.{Cache}
use ocm_controller.Cache.Repository.{
  Repository, LayerDescriptor, head_tag, delete_tag, fetch_blob, push_streaming_image,
  fetch_manifest,
}

-- Client. `has_client` tells that its Kubernetes client is set.
pub record Client : Type 0 where
  pub oci_repository_addr : String
  pub insecure_skip_verify : Bool
  pub has_client : Bool
  pub namespace : String
  pub cert_secret_name : String
  pub cert_pem : Option String
  pub key_pem : Option String
  pub ca : Option String

-- the client, and the registry that it speaks to
pub record Session (R : Type 0) : Type 0 where
  pub client : Client
  pub remote : R

abbrev pub field_of : String → List (String × String) → String → Result String
field_of key fields msg = elim (lookup key fields) [ some v ↦ ok v | none ↦ err (plain msg) ]

abbrev pub is_none : Option String → Bool
is_none none = true
is_none (some v) = false

abbrev pub transport_of : Client → Transport
transport_of c = if c.insecure_skip_verify then default_transport else tls c.cert_pem c.key_pem c.ca

abbrev pub has_certificates : Client → Bool
has_certificates c = not (is_none c.cert_pem && is_none c.key_pem)

abbrev pub first_layer : List LayerDescriptor → Result String
first_layer [] = err (plain "layers for repository is empty")
first_layer (l ∷ ls) = ok l.digest

abbrev pub pushed_layer : List String → Result String
pushed_layer [] = err (plain "no layers returned by manifest")
pushed_layer (digest ∷ digests) = ok digest

module _ (g : Registry) where
  open g use {Remote, Data, get_secret, new_repository_name}

  abbrev pub Here : Type 0
  Here = Session Remote

  abbrev pub set_certificates : String → String → String → Op Here (Unit {0})
  set_certificates cert key ca h = (
    ok tt,
    record h {
      client = record (h.client) { cert_pem = some cert; key_pem = some key; ca = some ca };
    },
  )

  unfoldable pub read_certificates : Op Here (Unit {0})
  read_certificates = do
    fields ← in_context "unable to find the secret containing the registry certificates" (
        reading
          (λ h. get_secret h.remote (in_namespace h.client.namespace h.client.cert_secret_name)))
    cert ← lift (field_of "tls.crt" fields "tls.crt data not found in registry certificate secret")
    key ← lift (field_of "tls.key" fields "tls.key data not found in registry certificate secret")
    ca ← lift (field_of "ca.crt" fields "ca.crt data not found in registry certificate secret")
    set_certificates cert key ca

  unfoldable pub setup_certificates : Op Here (Unit {0})
  setup_certificates h =
      if h.client.has_client
      then read_certificates h
      else (err (plain "client must not be nil if certificate is requested"), h)

  -- the option that WithTransport gives: what it adds to the remote options
  unfoldable pub with_transport : Op Here Transport
  with_transport h =
      if h.client.insecure_skip_verify || has_certificates h.client
      then (ok (transport_of h.client), h)
      else (do
        ready ← in_context "failed to set up certificates for transport" setup_certificates
        λ h'. (ok (transport_of h'.client), h'))
          h

  -- NewRepository with that option, of the repository of a name
  unfoldable pub new_repository : String → Op Here Repository
  new_repository name = do
    transport ←
        in_context "failed to make options" (in_context "failed to apply option" with_transport)
    parsed ←
        in_context "failed to parse Repository name"
          (reading (λ h. new_repository_name (h.client.oci_repository_addr ++ ("/" ++ name))))
    pure (record { name = parsed; transport = transport })

  abbrev pub on_remote : {A : Type 0} → Op Remote A → Op Here A
  on_remote call h = let (x, k) = call h.remote in (x, record h { remote = k })

  unfoldable pub push_data : Data → String → String → String → Op Here String
  push_data data' media_type name tag = do
    repo ← in_context "failed create new repository" (new_repository name)
    layers ←
        in_context "failed to push image"
          (on_remote (push_streaming_image g repo tag data' media_type []))
    lift (pushed_layer layers)

  unfoldable pub fetch_data_by_identity : String → String → Op Here (Data × String)
  fetch_data_by_identity name tag = do
    repo ← in_context "failed to get repository" (new_repository name)
    manifest ←
        in_context "failed to fetch manifest to obtain layers"
          (on_remote (fetch_manifest g repo tag []))
    digest ← lift (first_layer manifest.0)
    reader ←
        in_context "failed to fetch reader for digest of the 0th layer"
          (on_remote (fetch_blob g repo digest))
    pure (reader, digest)

  unfoldable pub fetch_data_by_digest : String → String → Op Here Data
  fetch_data_by_digest name digest = do
    repo ← in_context "failed to get repository" (new_repository name)
    in_context "failed to fetch blob" (on_remote (fetch_blob g repo digest))

  unfoldable pub is_cached : String → String → Op Here Bool
  is_cached name tag = do
    repo ← in_context "failed to get repository" (new_repository name)
    on_remote (head_tag g repo tag)

  unfoldable pub delete_data : String → String → Op Here (Unit {0})
  delete_data name tag = do
    repo ← in_context "failed create new repository" (new_repository name)
    on_remote (delete_tag g repo tag)

  abbrev pub oci_cache : Cache
  oci_cache = record {
    State = Here;
    Data = Data;
    is_cached = is_cached;
    push_data = push_data;
    fetch_data_by_identity = fetch_data_by_identity;
    fetch_data_by_digest = fetch_data_by_digest;
    delete_data = delete_data;
  }

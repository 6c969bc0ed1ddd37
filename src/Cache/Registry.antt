-- ===== src/Cache/Registry.antt =====
-- What pkg/oci/repository.go calls: the API server, and the remote, name and mutate packages of
-- go-containerregistry.
use ocm_controller.Prelude.{ℕ, String, Bool, Option, List}
use ocm_controller.Prelude.Outcome.{Result, Op}
use ocm_controller.Component.Names.{NamespacedName}

-- the transport of a remote call: the default one, or TLS with certificate, key and CA
pub data Transport : Type 0 where
  default_transport : Transport
  tls : (cert key ca : Option String) → Transport

pub record Registry : Type 1 where
  -- the state of the registry and of the cluster
  pub Remote : Type 0
  -- name.Reference, v1.Layer, v1.Image and remote.Descriptor
  pub Reference : Type 0
  pub Layer : Type 0
  pub Image : Type 0
  pub Descriptor : Type 0
  -- the content of a reader
  pub Data : Type 0
  -- client.Get of a Secret, its data
  pub get_secret : Remote → NamespacedName → Result (List (String × String))
  -- name.NewRepository with String, ParseReference, NewTag, NewDigest, and String of a reference
  pub new_repository_name : String → Result String
  pub parse_name : String → Result Reference
  pub new_tag : String → Result Reference
  pub new_digest : String → Result Reference
  pub reference_text : Reference → String
  -- remote.Head, the digest of its answer; remote.Get, Layer, Write and Delete
  pub head : Remote → Transport → Reference → Result String
  pub get : Remote → Transport → Reference → Result Descriptor
  pub layer : Remote → Transport → Reference → Result Layer
  pub write : Transport → Reference → Image → Op Remote (Unit {0})
  pub delete : Transport → Reference → Op Remote (Unit {0})
  -- Uncompressed of a layer; Image and RawManifest of a descriptor, and Layers of an image
  pub uncompressed : Remote → Layer → Result Data
  pub image_of : Remote → Descriptor → Result Image
  pub raw_manifest : Descriptor → Result String
  pub layers_of : Remote → Image → Result (List Layer)
  -- MediaType, Digest and Size of a layer
  pub media_type : Layer → Result String
  pub digest : Layer → Result String
  pub size : Layer → Result ℕ
  -- stream.NewLayer, and AppendLayers to the empty image
  pub stream_layer : Data → String → Layer
  pub append_layer : Layer → Result Image
  -- mutate.Annotations, with the assertion to an image, ConfigMediaType and MediaType
  pub annotate : List (String × String) → Image → Option Image
  pub with_config_media_type : String → Image → Image
  pub with_media_type : String → Image → Image
  -- Manifest of an image whose layers were read, by the digests of the layers
  pub manifest_layers : Remote → Image → Result (List String)
  -- json.Unmarshal of a manifest: the annotations of the descriptor; and strings.EqualFold
  pub manifest_annotations : String → Result (List (String × String))
  pub equal_fold : String → String → Bool

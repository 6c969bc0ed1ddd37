-- ===== src/Cache/Laws.antt =====
-- What the documentation of registries and of go-containerregistry promises, as far as the cache
-- relies on it: for a registry that nobody else writes to in between.
use Prim.Native.String.{◌++◌}
use ocm_controller.Prelude.{ℕ, String, ◌≡◌, true, some, List, [], ◌∷◌}
use ocm_controller.Prelude.Outcome.{Error, ok, err, as_transport}
use ocm_controller.Cache.Registry.{Registry, Transport}
use ocm_controller.Cache.Repository.{contains_text}

-- A tag of a repository leads to a manifest with one layer, and the layer's digest to the content.
pub record IsTagged (g : Registry) (t : Transport) (repo : String) (ref : g.Reference)
    (image : g.Image) (d : g.Data) (k : g.Remote) : Type 0 where
  pub manifest_digest : String
  pub descriptor : g.Descriptor
  pub raw : String
  pub found_image : g.Image
  pub found_layer : g.Layer
  pub type : String
  pub digest : String
  pub size : ℕ
  pub blob_reference : g.Reference
  pub blob : g.Layer
  pub head : g.head k t ref ≡ ok manifest_digest
  pub get : g.get k t ref ≡ ok descriptor
  pub raw_manifest : g.raw_manifest descriptor ≡ ok raw
  pub image_of : g.image_of k descriptor ≡ ok found_image
  pub layers_of : g.layers_of k found_image ≡ ok (found_layer ∷ [])
  pub media_type_of : g.media_type found_layer ≡ ok type
  pub digest_of : g.digest found_layer ≡ ok digest
  pub size_of : g.size found_layer ≡ ok size
  pub manifest_layers : g.manifest_layers k image ≡ ok (digest ∷ [])
  pub new_digest : g.new_digest (repo ++ ("@" ++ digest)) ≡ ok blob_reference
  pub layer : g.layer k t blob_reference ≡ ok blob
  pub uncompressed : g.uncompressed k blob ≡ ok d

-- The answer 404.
pub record IsMissing (g : Registry) (t : Transport) (ref : g.Reference) (k : g.Remote)
    : Type 0 where
  pub error : Error
  pub codes : List String
  pub head : g.head k t ref ≡ err error
  pub status : as_transport error ≡ some (404, codes)

pub record RegistryLaws (g : Registry) : Type 0 where
  -- the contents of the layers of an image
  pub contents : g.Image → List g.Data
  pub contents-append :
      (d : g.Data) (type : String) (image : g.Image)
      → g.append_layer (g.stream_layer d type) ≡ ok image
      → contents image ≡ d ∷ []
  pub contents-config_type :
      (type : String) (image : g.Image)
      → contents (g.with_config_media_type type image) ≡ contents image
  pub contents-media_type :
      (type : String) (image : g.Image) → contents (g.with_media_type type image) ≡ contents image
  -- a reference is read back from its own text, and a tag is a reference
  pub parse-text :
      (s : String) (ref : g.Reference)
      → g.parse_name s ≡ ok ref
      → g.parse_name (g.reference_text ref) ≡ ok ref
  pub parse-tag : (s : String) (ref : g.Reference) → g.new_tag s ≡ ok ref → g.parse_name s ≡ ok ref
  -- an image that was written can be read at its tag
  pub write-IsTagged :
      (t : Transport) (repo tag : String) (ref : g.Reference) (image : g.Image) (d : g.Data)
      (k k' : g.Remote)
      → g.parse_name (repo ++ (":" ++ tag)) ≡ ok ref
      → contents image ≡ d ∷ []
      → g.write t ref image k ≡ (ok tt, k')
      → IsTagged g t repo ref image d k'
  -- digests are SHA-256 digests, and a manifest that was deleted is not found by its tag
  pub head-digest :
      (t : Transport) (ref : g.Reference) (k : g.Remote) (digest : String)
      → g.head k t ref ≡ ok digest
      → contains_text "sha256:" digest ≡ true
  pub delete-IsMissing :
      (t : Transport) (repo tag digest : String) (ref manifest : g.Reference) (k k' : g.Remote)
      → g.parse_name (repo ++ (":" ++ tag)) ≡ ok ref
      → g.head k t ref ≡ ok digest
      → g.parse_name (repo ++ ("@" ++ digest)) ≡ ok manifest
      → g.delete t manifest k ≡ (ok tt, k')
      → IsMissing g t ref k'

-- ===== src/Cache/Repository.antt =====
-- The methods of Repository in pkg/oci/repository.go.
use Prim.Native.String.{◌++◌}
use text.Mathlib.Text.{starts_with}
use ocm_controller.Prelude.{
  ℕ, String, Bool, true, false, ◌||◌, Option, none, some, List, [], ◌∷◌, if◌then◌else◌, str_eq,
  nat_eq,
}
use ocm_controller.Prelude.Outcome.{
  Result, ok, err, panic, out_of_fuel, plain, Error, as_transport, context, Op, reading, in_context,
  lift, pure, ◌>>=◌,
}
use ocm_controller.Ocm.Fetch.{chart_media_type}
use ocm_controller.Cache.Registry.{Registry, Transport}

-- Repository: its name, and the transport of its remote options
pub record Repository : Type 0 where
  pub name : String
  pub transport : Transport

-- strings.Contains(s, part)
unfoldable pub contains_text : String → String → Bool
contains_text part String.[] = starts_with String.[] part
contains_text part (String.◌∷◌ c s) = starts_with (String.◌∷◌ c s) part || contains_text part s

-- types.OCILayer, and the media types of a Helm compliant repository
abbrev pub oci_layer : String
oci_layer = "application/vnd.oci.image.layer.v1.tar+gzip"

abbrev pub helm_config_type : String
helm_config_type = "application/vnd.cncf.helm.config.v1+json"

abbrev pub image_manifest_type : String
image_manifest_type = "application/vnd.oci.image.manifest.v1+json"

-- what is left of ocispec.Descriptor of a layer
pub record LayerDescriptor : Type 0 where
  pub media_type : String
  pub digest : String
  pub size : ℕ

-- the status of a failed HEAD request, if that is what failed
abbrev pub is_cached_after : Option (ℕ × List String) → Error → Result Bool
is_cached_after (some (status, codes)) e = if nat_eq status 404 then ok false else err e
is_cached_after none e = err e

module _ (g : Registry) where
  open g use {
    Remote, Reference, Layer, Image, Descriptor, Data, parse_name, new_tag, new_digest,
    reference_text, head, get, write, delete, uncompressed, image_of, raw_manifest, layers_of,
    media_type, digest, size, stream_layer, append_layer, annotate, with_config_media_type,
    with_media_type, manifest_layers, manifest_annotations, equal_fold,
  }

  unfoldable pub parse_reference : String → Repository → Result Reference
  parse_reference reference r =
      if str_eq reference ""
      then err (plain "reference must be specified")
      else context "failed to parse reference" (
          parse_name (
            if contains_text "sha256:" reference
            then r.name ++ ("@" ++ reference)
            else r.name ++ (":" ++ reference)))

  abbrev pub found_by_head : Result String → Result Bool
  found_by_head (ok d) = ok true
  found_by_head (err e) = is_cached_after (as_transport e) e
  found_by_head panic = panic
  found_by_head out_of_fuel = out_of_fuel

  -- Repository.head
  unfoldable pub head_tag : Repository → String → Op Remote Bool
  head_tag r tag = do
    reference ←
        lift
          (context "failed to parse repository and tag name" (parse_name (r.name ++ (":" ++ tag))))
    λ k. (found_by_head (head k r.transport reference), k)

  unfoldable pub delete_tag : Repository → String → Op Remote (Unit {0})
  delete_tag r tag = do
    ref ← lift (context "failed to parse reference" (new_tag (r.name ++ (":" ++ tag))))
    found ← in_context "failed to fetch head for reference" (reading (λ k. head k r.transport ref))
    delete_ref ←
        lift
          (context "failed to construct reference for calculated digest" (parse_reference found r))
    in_context "failed to delete ref" (delete r.transport delete_ref)

  -- fetchBlob and FetchBlob
  unfoldable pub fetch_blob : Repository → String → Op Remote Data
  fetch_blob r digest' = do
    ref ← lift (
        context "failed to fetch layer"
          (context "failed to parse digest" (new_digest (r.name ++ ("@" ++ digest')))))
    found ← in_context "failed to fetch layer" (reading (λ k. g.layer k r.transport ref))
    reading (λ k. uncompressed k found)

  -- computeStreamBlob
  unfoldable pub compute_stream_blob : Data → String → Layer
  compute_stream_blob reader type = stream_layer reader (if str_eq type "" then oci_layer else type)

  abbrev pub annotated : List (String × String) → Image → Result Image
  annotated [] image = ok image
  annotated (a ∷ rest) image = elim (annotate (a ∷ rest) image) [
    | some i ↦ ok i
    | none ↦ err (plain "returned object was not an Image")
  ]

  -- the media types that a Helm compliant repository requires
  abbrev pub helm_image : String → Image → Image
  helm_image type image =
      if str_eq type chart_media_type
      then with_media_type image_manifest_type (with_config_media_type helm_config_type image)
      else image

  -- the digests of the layers stand for the manifest
  unfoldable pub push_streaming_image :
      Repository → String → Data → String → List (String × String) → Op Remote (List String)
  push_streaming_image r reference reader type annotations = do
    ref ← lift (context "failed to parse reference" (parse_reference reference r))
    image ←
        lift (context "failed to compute image" (append_layer (compute_stream_blob reader type)))
    changed ← lift (annotated annotations image)
    written ← in_context "failed to push image" (write r.transport ref (helm_image type changed))
    reading (λ k. manifest_layers k (helm_image type changed))

  unfoldable pub layer_to_oci_descriptor : Layer → Op Remote LayerDescriptor
  layer_to_oci_descriptor layer' = do
    type ← lift (context "failed to get media type" (media_type layer'))
    d ← lift (context "failed to get digest" (digest layer'))
    n ← lift (context "failed to get size" (size layer'))
    pure (record { media_type = type; digest = d; size = n })

  -- the loop over the layers
  unfoldable pub describe_layers : List Layer → Op Remote (List LayerDescriptor)
  describe_layers [] = pure []
  describe_layers (layer' ∷ layers) = do
    described ← in_context "failed to get layer" (layer_to_oci_descriptor layer')
    others ← describe_layers layers
    pure (described ∷ others)

  unfoldable pub manifest_to_oci_descriptor : Descriptor → Op Remote (List LayerDescriptor)
  manifest_to_oci_descriptor m = do
    image ← in_context "failed to get image" (reading (λ k. image_of k m))
    layers ← in_context "failed to get layers" (reading (λ k. layers_of k image))
    describe_layers layers

  -- fetchManifestDescriptorFrom
  unfoldable pub fetch_manifest_descriptor : Repository → String → Op Remote Descriptor
  fetch_manifest_descriptor r s = do
    ref ← lift (context "failed to parse reference" (parse_name s))
    reading (λ k. get k r.transport ref)

  unfoldable pub matches_one : String → List String → Bool
  matches_one k [] = false
  matches_one k (f ∷ filters) = equal_fold k f || matches_one k filters

  unfoldable pub filter_annotations : List (String × String) → List String → List (String × String)
  filter_annotations [] filters = []
  filter_annotations ((k, v) ∷ annotations) filters =
      let rest = filter_annotations annotations filters in
      if matches_one k filters then (k, v) ∷ rest else rest

  abbrev pub demand_annotation : List (String × String) → Result (Unit {0})
  demand_annotation [] = err (plain "no matching annotations found")
  demand_annotation (a ∷ rest) = ok tt

  abbrev pub check_filters : List String → String → Op Remote (Unit {0})
  check_filters [] raw = pure tt
  check_filters (f ∷ filters) raw = do
    annotations ← lift (context "failed to get descriptor" (manifest_annotations raw))
    lift (demand_annotation (filter_annotations annotations (f ∷ filters)))

  unfoldable pub fetch_manifest :
      Repository → String → List String → Op Remote (List LayerDescriptor × String)
  fetch_manifest r reference filters = do
    ref ← lift (context "failed to parse reference" (parse_reference reference r))
    m ← in_context "failed to fetch manifest" (fetch_manifest_descriptor r (reference_text ref))
    raw ← lift (context "failed to get raw manifest" (raw_manifest m))
    checked ← check_filters filters raw
    described ← in_context "failed to get manifest descriptor" (manifest_to_oci_descriptor m)
    pure (described, raw)

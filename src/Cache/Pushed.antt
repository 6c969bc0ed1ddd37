-- ===== src/Cache/Pushed.antt =====
-- What a push leaves in the registry.
use Prim.Native.String.{◌++◌}
use mathlib.Core.Path.{subst}
use ocm_controller.Prelude.{
  String, false, ◌≡◌, sym, ap, ◌∙◌, List, [], ◌∷◌, arith, str_eq, if◌then◌else◌,
}
use ocm_controller.Prelude.Outcome.{ok, context, context-ok, step-ok}
use ocm_controller.Cache.Registry.{Registry}
use ocm_controller.Cache.Laws.{RegistryLaws, IsTagged}
use ocm_controller.Cache.Repository.{
  Repository, parse_reference, compute_stream_blob, oci_layer, helm_image, helm_config_type,
  image_manifest_type, push_streaming_image,
}
use ocm_controller.Cache.Opened.{IsOpen, IsTag, new_repository-IsOpen, parse_reference-tag}
use ocm_controller.Cache.Client.{Here, new_repository, pushed_layer, push_data}

module _ (g : Registry) (laws : RegistryLaws g) where
  contents-helm_image :
      (type : String) (image : g.Image)
      → laws.contents (helm_image g type image) ≡ laws.contents image
  contents-helm_image type image = ground (
    arith,
    laws.contents-config_type helm_config_type image,
    laws.contents-media_type image_manifest_type (g.with_config_media_type helm_config_type image),
  )

  -- what a push of an image leaves in the registry
  pub record IsStreamed (repo : Repository) (tag : String) (d : g.Data) (digests : List String)
      (k : g.Remote) : Type 0 where
    pub ref : g.Reference
    pub image : g.Image
    pub not_empty : str_eq tag "" ≡ false
    pub parsed : g.parse_name (repo.name ++ (":" ++ tag)) ≡ ok ref
    pub tagged : IsTagged g repo.transport repo.name ref image d k
    pub same_digests : tagged.digest ∷ [] ≡ digests

  push_streaming_image-IsStreamed :
      (repo : Repository) (tag type : String) (d : g.Data) (k : g.Remote) (digests : List String)
      → IsTag g tag
      → (push_streaming_image g repo tag d type [] k).0 ≡ ok digests
      → IsStreamed repo tag d digests (push_streaming_image g repo tag d type [] k).1
  unfolding push_streaming_image compute_stream_blob
  push_streaming_image-IsStreamed repo tag type d k digests is_tag h =
      let (ref, parsed, same) =
        step-ok (context "failed to parse reference" (parse_reference g tag repo)) _ k h in
      let (named, not_empty) = parse_reference-tag g tag repo ref is_tag (context-ok _ _ parsed) in
      let h₁ = ap (λ x. x.0) (sym same) ∙ h in
      let (image, computed, same₁) =
        step-ok
          (context "failed to compute image"
            (g.append_layer (g.stream_layer d (if str_eq type "" then oci_layer else type))))
          _ k h₁ in
      let h₂ = ap (λ x. x.0) (sym same₁) ∙ h₁ in
      let changed = helm_image g type image in
      let (_, written, same₂) =
        step-ok (context "failed to push image" (g.write repo.transport ref changed k).0) _ _ h₂ in
      let k₁ = (g.write repo.transport ref changed k).1 in
      let tagged : IsTagged g repo.transport repo.name ref changed d k₁ =
        laws.write-IsTagged repo.transport repo.name tag ref changed d k k₁ named
          (contents-helm_image type image
            ∙ laws.contents-append d _ image (context-ok _ _ computed))
          (ap (λ x. (x, k₁)) (context-ok _ _ written)) in
      subst (IsStreamed repo tag d digests) (ap (λ x. x.1) (sym (same ∙ same₁ ∙ same₂))) (record {
        ref = ref;
        image = changed;
        not_empty = not_empty;
        parsed = named;
        tagged = tagged;
        same_digests = cc (tagged.manifest_layers, ap (λ x. x.0) (sym same₂) ∙ h₂);
      })

  -- What PushData leaves, for the client and in the registry.
  pub record IsPushed (name tag digest : String) (d : g.Data) (h : Here g) : Type 0 where
    pub repo : Repository
    pub opened : IsOpen g h.client name repo
    pub streamed : IsStreamed repo tag d (digest ∷ []) h.remote

  only_digest :
      (xs : List String) (digest other : String)
      → (other ∷ []) ≡ xs
      → pushed_layer xs ≡ ok digest
      → xs ≡ digest ∷ []
  only_digest [] digest other e h = cc
  only_digest (x ∷ xs) digest other e h = cc (e, h)

  pub push_data-IsPushed :
      (d : g.Data) (type name tag digest : String) (h : Here g)
      → IsTag g tag
      → (push_data g d type name tag h).0 ≡ ok digest
      → IsPushed name tag digest d (push_data g d type name tag h).1
  unfolding push_data
  push_data-IsPushed d type name tag digest h is_tag e =
      let (repo, made, same) =
        step-ok (context "failed create new repository" (new_repository g name h).0) _ _ e in
      let h₁ = (new_repository g name h).1 in
      let opened = new_repository-IsOpen g name h repo (context-ok _ _ made) in
      let e₁ = ap (λ x. x.0) (sym same) ∙ e in
      let pushed = push_streaming_image g repo tag d type [] h₁.remote in
      let (digests, layers, same₁) = step-ok (context "failed to push image" pushed.0) _ _ e₁ in
      let streamed =
        push_streaming_image-IsStreamed repo tag type d h₁.remote digests is_tag
          (context-ok _ _ layers) in
      let one =
        only_digest digests digest _ streamed.same_digests (ap (λ x. x.0) (sym same₁) ∙ e₁) in
      subst (IsPushed name tag digest d) (ap (λ x. x.1) (sym (same ∙ same₁))) (record {
        repo = repo;
        opened = opened;
        streamed = subst (λ xs. IsStreamed repo tag d xs pushed.1) one streamed;
      })

-- ===== src/Cache/Stored.antt =====
-- The cache of pkg/oci/repository.go is a cache: what was pushed is there, and what was deleted is not.
use Prim.Native.String.{◌++◌}
use mathlib.Core.Path.{subst}
use ocm_controller.Prelude.{String, true, false, ◌≡◌, sym, ap, ◌∙◌, [], ◌∷◌, arith, str_eq}
use ocm_controller.Prelude.Outcome.{ok, context, context-ok, step-ok}
use ocm_controller.Cache.Contract.{IsCache}
use ocm_controller.Cache.Registry.{Registry}
use ocm_controller.Cache.Laws.{RegistryLaws, IsTagged, IsMissing}
use ocm_controller.Cache.Repository.{
  Repository, contains_text, parse_reference, head_tag, delete_tag, fetch_blob, fetch_manifest,
  fetch_manifest_descriptor, manifest_to_oci_descriptor, describe_layers, layer_to_oci_descriptor,
}
use ocm_controller.Cache.Client.{
  Here, new_repository, push_data, fetch_data_by_identity, fetch_data_by_digest, is_cached,
  delete_data, oci_cache,
}
use ocm_controller.Cache.Opened.{IsOpen, IsTag, new_repository-IsOpen, new_repository_again}
use ocm_controller.Cache.Pushed.{IsPushed, push_data-IsPushed}

module _ (g : Registry) (laws : RegistryLaws g) where
  fetch_blob_lem :
      (repo : Repository) (ref : g.Reference) (image : g.Image) (d : g.Data) (k : g.Remote)
      (tagged : IsTagged g repo.transport repo.name ref image d k)
      → fetch_blob g repo tagged.digest k ≡ (ok d, k)
  unfolding fetch_blob
  fetch_blob_lem repo ref image d k tagged =
      ground (arith, tagged.new_digest, tagged.layer, tagged.uncompressed)

  parse_reference_lem :
      (repo : Repository) (tag : String) (ref : g.Reference)
      → IsTag g tag
      → str_eq tag "" ≡ false
      → g.parse_name (repo.name ++ (":" ++ tag)) ≡ ok ref
      → parse_reference g tag repo ≡ ok ref
  unfolding parse_reference
  parse_reference_lem repo tag ref is_tag not_empty parsed = ground arith

  fetch_manifest_lem :
      (repo : Repository) (tag : String) (ref : g.Reference) (image : g.Image) (d : g.Data)
      (k : g.Remote) (tagged : IsTagged g repo.transport repo.name ref image d k)
      → parse_reference g tag repo ≡ ok ref
      → g.parse_name (g.reference_text ref) ≡ ok ref
      → fetch_manifest g repo tag [] k ≡ (
        ok (
          record { media_type = tagged.type; digest = tagged.digest; size = tagged.size } ∷ [],
          tagged.raw,
        ),
        k,
      )
  unfolding fetch_manifest fetch_manifest_descriptor manifest_to_oci_descriptor describe_layers
      layer_to_oci_descriptor
  fetch_manifest_lem repo tag ref image d k tagged parsed again = ground (
    arith, tagged.get, tagged.raw_manifest, tagged.image_of, tagged.layers_of, tagged.media_type_of,
    tagged.digest_of, tagged.size_of,
  )

  abbrev pushed :
      (d : g.Data) (type name tag digest : String) (h h' : Here g)
      → IsTag g tag
      → push_data g d type name tag h ≡ (ok digest, h')
      → IsPushed g laws name tag digest d h'
  pushed d type name tag digest h h' is_tag e =
      subst (IsPushed g laws name tag digest d) (ap (λ x. x.1) e)
        (push_data-IsPushed g laws d type name tag digest h is_tag (ap (λ x. x.0) e))

  same_digest :
      (name tag digest : String) (d : g.Data) (h : Here g) (p : IsPushed g laws name tag digest d h)
      → p.streamed.tagged.digest ≡ digest
  same_digest name tag digest d h p = cc (p.streamed.same_digests)

  digest-pushed :
      (name tag digest : String) (d : g.Data) (h : Here g)
      → IsPushed g laws name tag digest d h
      → (fetch_data_by_digest g name digest h).0 ≡ ok d
  unfolding fetch_data_by_digest
  digest-pushed name tag digest d h p =
      let s = p.streamed in
      let blob = fetch_blob_lem p.repo s.ref s.image d h.remote s.tagged in
      let blob' : fetch_blob g p.repo digest h.remote ≡ (ok d, h.remote) =
        ap (λ x. fetch_blob g p.repo x h.remote) (sym (same_digest name tag digest d h p)) ∙ blob in
      ground (arith, new_repository_again g name h p.repo p.opened, blob')

  identity-pushed :
      (name tag digest : String) (d : g.Data) (h : Here g)
      → IsTag g tag
      → IsPushed g laws name tag digest d h
      → (fetch_data_by_identity g name tag h).0 ≡ ok (d, digest)
  unfolding fetch_data_by_identity
  identity-pushed name tag digest d h is_tag p =
      let s = p.streamed in
      let parsed = parse_reference_lem p.repo tag s.ref is_tag s.not_empty s.parsed in
      let manifest =
        fetch_manifest_lem p.repo tag s.ref s.image d h.remote s.tagged parsed
          (laws.parse-text _ s.ref s.parsed) in
      let blob = fetch_blob_lem p.repo s.ref s.image d h.remote s.tagged in
      ground (
        arith,
        new_repository_again g name h p.repo p.opened,
        manifest,
        blob,
        same_digest name tag digest d h p,
      )

  is_cached-pushed :
      (name tag digest : String) (d : g.Data) (h : Here g)
      → IsPushed g laws name tag digest d h
      → (is_cached g name tag h).0 ≡ ok true
  unfolding is_cached head_tag
  is_cached-pushed name tag digest d h p = ground (
    arith,
    new_repository_again g name h p.repo p.opened,
    p.streamed.parsed,
    p.streamed.tagged.head,
  )

  -- what a deletion leaves
  record IsDeleted (name tag : String) (h : Here g) : Type 0 where
    repo : Repository
    ref : g.Reference
    opened : IsOpen g h.client name repo
    parsed : g.parse_name (repo.name ++ (":" ++ tag)) ≡ ok ref
    missing : IsMissing g repo.transport ref h.remote

  is_cached-deleted :
      (name tag : String) (h : Here g)
      → IsDeleted name tag h
      → (is_cached g name tag h).0 ≡ ok false
  unfolding is_cached head_tag
  is_cached-deleted name tag h p = ground (
    arith,
    new_repository_again g name h p.repo p.opened,
    p.parsed,
    p.missing.head,
    p.missing.status,
  )

  parse_digest :
      (repo : Repository) (digest : String) (ref : g.Reference)
      → contains_text "sha256:" digest ≡ true
      → parse_reference g digest repo ≡ ok ref
      → g.parse_name (repo.name ++ ("@" ++ digest)) ≡ ok ref
  unfolding parse_reference
  parse_digest repo digest ref is_digest h = ground arith

  delete_tag-IsMissing :
      (repo : Repository) (tag : String) (k : g.Remote)
      → (delete_tag g repo tag k).0 ≡ ok tt
      → (ref : g.Reference) × (g.parse_name (repo.name ++ (":" ++ tag)) ≡ ok ref)
        × IsMissing g repo.transport ref (delete_tag g repo tag k).1
  unfolding delete_tag
  delete_tag-IsMissing repo tag k h =
      let (ref, tagged, same) =
        step-ok (context "failed to parse reference" (g.new_tag (repo.name ++ (":" ++ tag)))) _ k
          h in
      let h₁ = ap (λ x. x.0) (sym same) ∙ h in
      let (digest, found, same₁) =
        step-ok (context "failed to fetch head for reference" (g.head k repo.transport ref)) _ k
          h₁ in
      let h₂ = ap (λ x. x.0) (sym same₁) ∙ h₁ in
      let (manifest, computed, same₂) =
        step-ok
          (context "failed to construct reference for calculated digest"
            (parse_reference g digest repo))
          _ k h₂ in
      let h₃ = ap (λ x. x.0) (sym same₂) ∙ h₂ in
      let parsed = laws.parse-tag _ ref (context-ok _ _ tagged) in
      let head = context-ok _ _ found in
      let k' = (g.delete repo.transport manifest k).1 in
      let missing : IsMissing g repo.transport ref k' =
        laws.delete-IsMissing repo.transport repo.name tag digest ref manifest k k' parsed head
          (parse_digest repo digest manifest (laws.head-digest _ ref k digest head)
            (context-ok _ _ computed))
          (ap (λ x. (x, k')) (context-ok _ _ h₃)) in
      (
        ref,
        parsed,
        subst (IsMissing g repo.transport ref) (ap (λ x. x.1) (sym (same ∙ same₁ ∙ same₂))) missing,
      )

  delete_data-IsDeleted :
      (name tag : String) (h : Here g)
      → (delete_data g name tag h).0 ≡ ok tt
      → IsDeleted name tag (delete_data g name tag h).1
  unfolding delete_data
  delete_data-IsDeleted name tag h e =
      let (repo, made, same) =
        step-ok (context "failed create new repository" (new_repository g name h).0) _ _ e in
      let h₁ = (new_repository g name h).1 in
      let (ref, parsed, missing) =
        delete_tag-IsMissing repo tag h₁.remote (ap (λ x. x.0) (sym same) ∙ e) in
      subst (IsDeleted name tag) (ap (λ x. x.1) (sym same)) (record {
        repo = repo;
        ref = ref;
        opened = new_repository-IsOpen g name h repo (context-ok _ _ made);
        parsed = parsed;
        missing = missing;
      })

  -- The client of pkg/oci is a cache: after a push under a tag, the content and its digest are fetched
  -- by name and tag, the content is fetched by name and digest, and the tag is cached; after a
  -- deletion the tag is not cached. This rests on a registry that keeps the documented promises of
  -- `RegistryLaws`, and includes the reading of the certificates before the first call.
  pub oci_cache-IsCache : IsCache (oci_cache g) (IsTag g)
  oci_cache-IsCache = record {
    identity-push = λ d type name tag digest h h' is_tag e.
        identity-pushed name tag digest d h' is_tag (pushed d type name tag digest h h' is_tag e);
    digest-push = λ d type name tag digest h h' is_tag e.
        digest-pushed name tag digest d h' (pushed d type name tag digest h h' is_tag e);
    is_cached-push = λ d type name tag digest h h' is_tag e.
        is_cached-pushed name tag digest d h' (pushed d type name tag digest h h' is_tag e);
    is_cached-delete = λ name tag h h' e. is_cached-deleted name tag h' (
        subst (IsDeleted name tag) (ap (λ x. x.1) e)
          (delete_data-IsDeleted name tag h (ap (λ x. x.0) e)));
  }

-- ===== src/Snapshot/Written.antt =====
-- What a write of a snapshot leaves, in the cluster and in the cache.
use mathlib.Core.Path.{subst}
use ocm_controller.Prelude.{String, ◌≡◌, refl, sym, ap, ◌∙◌, Option, none, some, arith}
use ocm_controller.Prelude.Outcome.{
  Error, Result, ok, err, panic, out_of_fuel, context, context-ok, step-ok,
}
use ocm_controller.Component.Names.{Identity, construct_repository_name}
use ocm_controller.Cache.Contract.{Cache, IsCache}
use ocm_controller.Resource.Types.{SnapshotObject}
use ocm_controller.Mutation.Types.{MutationObject}
use ocm_controller.Snapshot.Tar.{relative_path, build_tar}
use ocm_controller.Snapshot.Archive.{TarLaws, Archives, build_tar-Archives}
use ocm_controller.Snapshot.Writer.{
  WriterServices, Here, with_error, media_type_of, empty_snapshot, fill, push_and_record, closing,
  write_snapshot,
}

-- CreateOrUpdate ends well only with what its function makes of an object with that key, and files and
-- archives are as buildTar needs them.
pub record WriterLaws (c : Cache) (s : WriterServices c) : Type 0 where
  pub tar : TarLaws s.tar
  pub created :
      (o : SnapshotObject) (f : SnapshotObject → Result SnapshotObject) (k : s.Cluster)
      (o' : SnapshotObject)
      → (s.create_or_update o f k).0 ≡ ok o'
      → (found : SnapshotObject) × (found.key ≡ o.key) × (f found ≡ ok o')

module _ (c : Cache) (s : WriterServices c) (laws : WriterLaws c s) (IsTag : String → Type 0)
    (cache : IsCache c IsTag) where
  -- The snapshot object that was written, and the content of the archive in the cache.
  pub record IsWritten (owner : MutationObject) (identity : Identity) (digest : String)
      (file : c.Data) (h : Here c s) : Type 0 where
    pub name : String
    pub snapshot : SnapshotObject
    pub before : s.Cluster
    pub named : construct_repository_name s.hash identity ≡ ok name
    pub recorded :
        (s.create_or_update (empty_snapshot owner) (fill c s owner identity digest) before).0
        ≡ ok snapshot
    pub identity_is : snapshot.identity ≡ identity
    pub digest_is : snapshot.digest ≡ digest
    pub tag_is : snapshot.tag ≡ owner.resource_version
    pub by_identity :
        (c.fetch_data_by_identity name owner.resource_version h.cache).0 ≡ ok (file, digest)
    pub by_digest : (c.fetch_data_by_digest name digest h.cache).0 ≡ ok file

  -- The file is the archive that buildTar made of the source directory, in a temporary file, with an
  -- entry for each directory and each regular file of the walk.
  pub record IsArchive (source_dir : String) (h : Here c s) (file : c.Data) : Type 0 where
    pub path : String
    pub made : (s.create_temp h.cluster).0 ≡ ok path
    pub built : (build_tar s.tar path source_dir (s.create_temp h.cluster).1).0 ≡ ok tt
    pub holds :
        Archives
          (relative_path s.tar source_dir)
          (s.tar.walk (s.tar.create_temp (s.create_temp h.cluster).1).1 source_dir)
          (laws.tar.entries (build_tar s.tar path source_dir (s.create_temp h.cluster).1).1 path)
    pub opened :
        s.open_file (build_tar s.tar path source_dir (s.create_temp h.cluster).1).1 path ≡ ok file

  filled :
      (owner : MutationObject) (identity : Identity) (digest : String) (o o' : SnapshotObject)
      → fill c s owner identity digest o ≡ ok o'
      → (o'.identity ≡ identity) × (o'.digest ≡ digest) × (o'.tag ≡ owner.resource_version)
  unfolding fill
  filled owner identity digest o o' h = ground arith

  push_and_record-IsWritten :
      (owner : MutationObject) (identity : Identity) (file : c.Data) (h : Here c s)
      (digest : String)
      → IsTag owner.resource_version
      → (push_and_record c s owner identity file h).0 ≡ ok digest
      → IsWritten owner identity digest file (push_and_record c s owner identity file h).1
  unfolding push_and_record
  push_and_record-IsWritten owner identity file h digest is_tag e =
      let (name, named, same) =
        step-ok (context "failed to construct name" (construct_repository_name s.hash identity)) _ h
          e in
      let e₁ = ap (λ x. x.0) (sym same) ∙ e in
      let pushed = c.push_data file (media_type_of identity) name owner.resource_version h.cache in
      let (found, ended, same₁) =
        step-ok (context "failed to push blob to local registry" pushed.0) _ _ e₁ in
      let e₂ = ap (λ x. x.0) (sym same₁) ∙ e₁ in
      let push_ok : pushed ≡ (ok found, pushed.1) =
        ap (λ x. (x, pushed.1)) (context-ok _ _ ended) in
      let (snapshot, written, same₂) =
        step-ok
          (context "failed to create or update component descriptor"
            (s.create_or_update (empty_snapshot owner) (fill c s owner identity found) h.cluster).0)
          _ _ e₂ in
      let made = context-ok _ _ written in
      let (o, key, is_filled) = laws.created (empty_snapshot owner) _ h.cluster snapshot made in
      let (i, d, t) = filled owner identity found o snapshot is_filled in
      let is_digest : found ≡ digest = cc (ap (λ x. x.0) (sym same₂) ∙ e₂) in
      let left = ap (λ x. x.1) (sym (same ∙ same₁ ∙ same₂)) in
      subst (λ d'. IsWritten owner identity d' file (push_and_record c s owner identity file h).1)
        is_digest
        (subst (IsWritten owner identity found file) left (record {
          name = name;
          snapshot = snapshot;
          before = h.cluster;
          named = context-ok _ _ named;
          recorded = made;
          identity_is = i;
          digest_is = d;
          tag_is = t;
          by_identity = cache.identity-push file _ name _ found h.cache pushed.1 is_tag push_ok;
          by_digest = cache.digest-push file _ name _ found h.cache pushed.1 is_tag push_ok;
        }))

  -- the deferred function leaves the cache alone, and makes no result of an error
  closed_ok :
      {A : Type 0} (x : Option Error) (r : Result A) {a : A} → with_error x r ≡ ok a → r ≡ ok a
  closed_ok none r h = h
  closed_ok (some e) (ok a) h = cc
  closed_ok (some e) (err y) h = cc
  closed_ok (some e) panic h = cc
  closed_ok (some e) out_of_fuel h = cc

  same_cache :
      (owner : MutationObject) (identity : Identity) (digest : String) (file : c.Data)
      (h h' : Here c s)
      → h.cache ≡ h'.cache
      → IsWritten owner identity digest file h
      → IsWritten owner identity digest file h'
  same_cache owner identity digest file h h' e w = record {
    name = w.name;
    snapshot = w.snapshot;
    before = w.before;
    named = w.named;
    recorded = w.recorded;
    identity_is = w.identity_is;
    digest_is = w.digest_is;
    tag_is = w.tag_is;
    by_identity =
        ap (λ k. (c.fetch_data_by_identity w.name owner.resource_version k).0) (sym e)
        ∙ w.by_identity;
    by_digest = ap (λ k. (c.fetch_data_by_digest w.name digest k).0) (sym e) ∙ w.by_digest;
  }

  -- A snapshot that was written is recorded in an object with the identity, the digest that is
  -- returned, and the resource version of its owner as the tag; and the cache, which is a cache in
  -- the sense of `IsCache`, then has, in the repository of the identity, under that tag and under that
  -- digest, the content of the temporary file to which buildTar wrote the archive of the source
  -- directory, as it was then: with exactly one entry, in the order of the walk, for each directory
  -- and each regular file of it, and with the content of the file. The resource version has to be a
  -- tag.
  pub write_snapshot-IsWritten :
      (owner : MutationObject) (source_dir : String) (identity : Identity) (h : Here c s)
      (digest : String)
      → IsTag owner.resource_version
      → (write_snapshot c s owner source_dir identity h).0 ≡ ok digest
      → (file : c.Data) × IsArchive source_dir h file
        × IsWritten owner identity digest file (write_snapshot c s owner source_dir identity h).1
  unfolding write_snapshot closing
  write_snapshot-IsWritten owner source_dir identity h digest is_tag e =
      let (path, made, same) = step-ok (context "fs error" (s.create_temp h.cluster).0) _ _ e in
      let k₁ = (s.create_temp h.cluster).1 in
      let e₁ = ap (λ x. x.0) (sym same) ∙ e in
      let (_, built, same₁) =
        step-ok (context "build tar error" (build_tar s.tar path source_dir k₁).0) _ _ e₁ in
      let k₂ = (build_tar s.tar path source_dir k₁).1 in
      let e₂ = ap (λ x. x.0) (sym same₁) ∙ e₁ in
      let (file, opened, same₂) =
        step-ok (context "failed to open created archive" (s.open_file k₂ path)) _
          (record h { cluster = k₂ }) e₂ in
      let e₃ = ap (λ x. x.0) (sym same₂) ∙ e₂ in
      let h₃ : Here c s = record h { cluster = k₂ } in
      let ended = closed_ok _ _ (closed_ok _ _ e₃) in
      let written = push_and_record-IsWritten owner identity file h₃ digest is_tag ended in
      (
        file,
        record {
          path = path;
          made = context-ok _ _ made;
          built = context-ok _ _ built;
          holds = build_tar-Archives s.tar laws.tar path source_dir k₁ (context-ok _ _ built);
          opened = context-ok _ _ opened;
        },
        subst (IsWritten owner identity digest file) (ap (λ x. x.1) (sym (same ∙ same₁ ∙ same₂))) (
            same_cache owner identity digest file (push_and_record c s owner identity file h₃).1 _
              refl written),
      )

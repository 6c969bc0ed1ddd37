-- ===== src/Mutation/Agreement.antt =====
-- getData and getIdentity, called one after the other, speak of the same object.
use ocm_controller.Prelude.{String, ◌≡◌, refl, sym, ap, ◌∙◌, false, arith}
use ocm_controller.Prelude.Outcome.{Result, ok, context, context-ok, bind-ok, else-ok}
use ocm_controller.Status.Runtime.{Runtime, ready}
use ocm_controller.Component.Names.{Identity, construct_repository_name}
use ocm_controller.ComponentVersion.Services.{Stored}
use ocm_controller.Snapshot.Types.{Snapshot}
use ocm_controller.FluxDeployer.Types.{Source}
use ocm_controller.Ocm.Credentials.{in_namespace}
use ocm_controller.Mutation.Types.{DataReference}
use ocm_controller.Mutation.Services.{MutationServices}
use ocm_controller.Mutation.Sources.{
  is_component_version, snapshot_name_in, wrap_unless_missing, get_snapshot_bytes,
  fetch_data_from_object_reference, get_data, identity_of_snapshot, get_identity,
}

module _ (r : Runtime) (s : MutationServices r) where
  open s use {
    Cluster, Data, Bytes, get_source, get_snapshot, fetch_data_by_digest, hash, auto_decompress,
    read_all,
  }

  -- The data and the identity are those of one snapshot, which the object names.
  pub record IsOfSnapshot (k : Cluster) (obj : DataReference) (bytes : Bytes) (id : Identity)
      : Type 0 where
    pub source : Source
    pub name : String
    pub snapshot : Stored r.Conditions Snapshot
    pub repository_name : String
    pub reader : Data
    pub content : Data
    pub source_found : get_source k obj.ref ≡ ok source
    pub named : snapshot_name_in source ≡ ok name
    pub snapshot_found : get_snapshot k (in_namespace obj.ref.namespace name) ≡ ok snapshot
    pub not_failed : r.is_false snapshot.conditions ready ≡ false
    pub repository : construct_repository_name hash snapshot.obj.identity ≡ ok repository_name
    pub fetched :
        fetch_data_by_digest k repository_name snapshot.obj.last_reconciled_digest ≡ ok reader
    pub decompressed : auto_decompress reader ≡ ok content
    pub data_read : read_all content ≡ ok bytes
    pub identity : id ≡ snapshot.obj.identity

  found_unless_missing :
      {A : Type 0} (x : Result A) {a : A} → wrap_unless_missing x ≡ ok a → x ≡ ok a
  found_unless_missing x h = ground arith

  read_only :
      (obj : DataReference) (k : Cluster) → (fetch_data_from_object_reference r s obj k).1 ≡ k
  unfolding fetch_data_from_object_reference get_snapshot_bytes
  read_only obj k = ground arith

  get_data_lem :
      (obj : DataReference) (k : Cluster)
      → is_component_version obj ≡ false
      → get_data r s obj k ≡ (
        context "failed to fetch resource data from snapshot"
            (fetch_data_from_object_reference r s obj k).0,
        (fetch_data_from_object_reference r s obj k).1,
      )
  unfolding get_data
  get_data_lem obj k other = rw other refl

  get_identity_lem :
      (obj : DataReference) (k : Cluster)
      → is_component_version obj ≡ false
      → get_identity r s obj k ≡ identity_of_snapshot r s obj k
  unfolding get_identity
  get_identity_lem obj k other = rw other refl

  identity_of_snapshot_lem :
      (obj : DataReference) (k : Cluster) (source : Source) (name : String)
      (snapshot : Stored r.Conditions Snapshot)
      → get_source k obj.ref ≡ ok source
      → snapshot_name_in source ≡ ok name
      → get_snapshot k (in_namespace obj.ref.namespace name) ≡ ok snapshot
      → (identity_of_snapshot r s obj k).0 ≡ ok snapshot.obj.identity
  unfolding identity_of_snapshot
  identity_of_snapshot_lem obj k source name snapshot h₁ h₂ h₃ = ground (arith, h₁, h₂, h₃)

  fetched-IsOfSnapshot :
      (obj : DataReference) (k : Cluster) (bytes : Bytes) (id : Identity)
      → (fetch_data_from_object_reference r s obj k).0 ≡ ok bytes
      → (identity_of_snapshot r s obj k).0 ≡ ok id
      → IsOfSnapshot k obj bytes id
  unfolding fetch_data_from_object_reference get_snapshot_bytes
  fetched-IsOfSnapshot obj k bytes id hd hi =
      let (source, found, h₁) = bind-ok (get_source k obj.ref) _ _ hd in
      let (name, named, h₂) = bind-ok (snapshot_name_in source) _ _ h₁ in
      let (snapshot, there, h₃) =
        bind-ok (wrap_unless_missing (get_snapshot k (in_namespace obj.ref.namespace name))) _ _
          h₂ in
      let there₁ =
        found_unless_missing (get_snapshot k (in_namespace obj.ref.namespace name)) there in
      let (not_failed, same) = else-ok (r.is_false snapshot.conditions ready) _ _ k h₃ (λ e. cc) in
      let h₄ = ap (λ x. x.0) (sym same) ∙ h₃ in
      let (repository_name, repository, h₅) =
        bind-ok
          (context "failed to construct name"
            (construct_repository_name hash snapshot.obj.identity))
          _ _ h₄ in
      let (reader, fetched, h₆) =
        bind-ok
          (context "failed to fetch data"
            (fetch_data_by_digest k repository_name snapshot.obj.last_reconciled_digest))
          _ _ h₅ in
      let (content, decompressed, h₇) =
        bind-ok (context "failed to auto decompress" (auto_decompress reader)) _ _ h₆ in
      let same_identity = identity_of_snapshot_lem obj k source name snapshot found named there₁ in
      record {
        source = source;
        name = name;
        snapshot = snapshot;
        repository_name = repository_name;
        reader = reader;
        content = content;
        source_found = found;
        named = named;
        snapshot_found = there₁;
        not_failed = not_failed;
        repository = context-ok _ _ repository;
        fetched = context-ok _ _ fetched;
        decompressed = context-ok _ _ decompressed;
        data_read = h₇;
        identity = cc (hi, same_identity);
      }

  -- Where the reference is not to a component version, getData and getIdentity of the same reference,
  -- if both end well, give the content and the identity of the same snapshot: the one that the
  -- object's status names, whose Ready condition is not False. The content is what the cache has at
  -- the snapshot's own digest in the repository of that identity, and nothing is written.
  pub get_data-IsOfSnapshot :
      (obj : DataReference) (k : Cluster) (bytes : Bytes) (id : Identity)
      → is_component_version obj ≡ false
      → (get_data r s obj k).0 ≡ ok bytes
      → (get_identity r s obj (get_data r s obj k).1).0 ≡ ok id
      → ((get_data r s obj k).1 ≡ k) × IsOfSnapshot k obj bytes id
  get_data-IsOfSnapshot obj k bytes id other hd hi =
      let same = get_data_lem obj k other in
      let fetched = context-ok _ _ (ap (λ x. x.0) (sym same) ∙ hd) in
      let unchanged = ap (λ x. x.1) same ∙ read_only obj k in
      let identified =
        ap (λ x. x.0) (sym (get_identity_lem obj k other))
        ∙ ap (λ (k' : Cluster). (get_identity r s obj k').0) (sym unchanged)
        ∙ hi in
      (unchanged, fetched-IsOfSnapshot obj k bytes id fetched identified)

-- ===== src/Mutation/Mutated.antt =====
-- What a mutation that ends well has done.
use ocm_controller.Prelude.{ℕ, String, ◌≡◌, sym, ap, ◌∙◌, false, nat_eq}
use ocm_controller.Prelude.Outcome.{ok, context, context-ok, step-ok, else-ok}
use ocm_controller.Status.Runtime.{Runtime}
use ocm_controller.Component.Names.{Identity}
use ocm_controller.Mutation.Services.{MutationServices}
use ocm_controller.Mutation.Sources.{get_data, get_identity}
use ocm_controller.Mutation.Looper.{
  Here, version_in, perform_mutation, write_mutated, mutate_and_write, reconcile_mutation_object,
}

module _ (r : Runtime) (s : MutationServices r) (fuel : ℕ) where
  open s use {Cluster, Bytes, size, remove_all, write_snapshot}

  abbrev pub sourced : Here r s → Cluster → Identity → Here r s
  sourced w k id = record w {
    cluster = k;
    obj = record (w.obj) { latest_source_version = version_in id };
  }

  -- The steps of a mutation, from the world `w` to the world `w'`.
  pub record IsMutated (w w' : Here r s) : Type 0 where
    pub source_data : Bytes
    pub after_data : Cluster
    pub source_id : Identity
    pub after_identity : Cluster
    pub dir : String
    pub id : Identity
    pub digest : String
    pub after_writing : Cluster
    pub mutated : Here r s
    pub fetched : get_data r s w.obj.source_ref w.cluster ≡ (ok source_data, after_data)
    pub identified : get_identity r s w.obj.source_ref after_data ≡ (ok source_id, after_identity)
    pub not_empty : nat_eq (size source_data) 0 ≡ false
    pub performed :
        perform_mutation r s fuel source_data (sourced w after_identity source_id)
        ≡ (ok (dir, id), mutated)
    pub written : write_snapshot mutated.obj dir id mutated.cluster ≡ (ok digest, after_writing)
    pub left : w' ≡ record mutated {
      cluster = remove_all dir after_writing;
      obj = record (mutated.obj) { latest_snapshot_digest = digest };
    }

  with_first : {A B : Type 0} (p : A × B) {a : A} → p.0 ≡ a → p ≡ (a, p.1)
  with_first p h = ap (λ x. (x, p.1)) h

  -- the block after the test of the source data
  record IsWritten (source_data : Bytes) (w w' : Here r s) : Type 0 where
    dir : String
    id : Identity
    digest : String
    mutated : Here r s
    after_writing : Cluster
    not_empty : nat_eq (size source_data) 0 ≡ false
    performed : perform_mutation r s fuel source_data w ≡ (ok (dir, id), mutated)
    written : write_snapshot mutated.obj dir id mutated.cluster ≡ (ok digest, after_writing)
    left : w' ≡ record mutated {
      cluster = remove_all dir after_writing;
      obj = record (mutated.obj) { latest_snapshot_digest = digest };
    }

  mutate_and_write-IsWritten :
      (source_data : Bytes) (w : Here r s)
      → (mutate_and_write r s fuel source_data w).0 ≡ ok tt
      → IsWritten source_data w (mutate_and_write r s fuel source_data w).1
  unfolding mutate_and_write write_mutated
  mutate_and_write-IsWritten source_data w h =
      let (not_empty, same) = else-ok (nat_eq (size source_data) 0) _ _ w h (λ e. cc) in
      let h₁ = ap (λ x. x.0) (sym same) ∙ h in
      let ((dir, id), performed, same₁) =
        step-ok (perform_mutation r s fuel source_data w).0 _ _ h₁ in
      let h₂ = ap (λ x. x.0) (sym same₁) ∙ h₁ in
      let w₁ = (perform_mutation r s fuel source_data w).1 in
      let (digest, written, same₂) =
        step-ok (context "error writing snapshot" (write_snapshot w₁.obj dir id w₁.cluster).0) _ _
          h₂ in
      record {
        dir = dir;
        id = id;
        digest = digest;
        mutated = w₁;
        after_writing = (write_snapshot w₁.obj dir id w₁.cluster).1;
        not_empty = not_empty;
        performed = with_first (perform_mutation r s fuel source_data w) performed;
        written = with_first (write_snapshot w₁.obj dir id w₁.cluster) (context-ok _ _ written);
        left = ap (λ x. x.1) (same ∙ same₁ ∙ same₂);
      }

  -- A mutation that ends well has read data of its source that are not empty and an identity for
  -- them, has mutated these data, has written the directory that the mutation left as a snapshot
  -- with the identity that it gave, has removed that directory, and has recorded in the status the
  -- component version of the source and the digest of the snapshot.
  pub reconcile_mutation_object-IsMutated :
      (w : Here r s)
      → (reconcile_mutation_object r s fuel w).0 ≡ ok tt
      → IsMutated w (reconcile_mutation_object r s fuel w).1
  unfolding reconcile_mutation_object
  reconcile_mutation_object-IsMutated w h =
      let (source_data, fetched, same) =
        step-ok
          (context "failed to get data for source ref" (get_data r s w.obj.source_ref w.cluster).0)
          _ _ h in
      let h₁ = ap (λ x. x.0) (sym same) ∙ h in
      let k₁ = (get_data r s w.obj.source_ref w.cluster).1 in
      let (source_id, identified, same₁) =
        step-ok
          (context "failed to get identity for source ref" (get_identity r s w.obj.source_ref k₁).0)
          _ _ h₁ in
      let h₂ = ap (λ x. x.0) (sym same₁) ∙ h₁ in
      let k₂ = (get_identity r s w.obj.source_ref k₁).1 in
      let rest = mutate_and_write-IsWritten source_data (sourced w k₂ source_id) h₂ in
      record {
        source_data = source_data;
        after_data = k₁;
        source_id = source_id;
        after_identity = k₂;
        dir = rest.dir;
        id = rest.id;
        digest = rest.digest;
        after_writing = rest.after_writing;
        mutated = rest.mutated;
        fetched = with_first (get_data r s w.obj.source_ref w.cluster) (context-ok _ _ fetched);
        identified = with_first (get_identity r s w.obj.source_ref k₁) (context-ok _ _ identified);
        not_empty = rest.not_empty;
        performed = rest.performed;
        written = rest.written;
        left = ap (λ x. x.1) (same ∙ same₁) ∙ rest.left;
      }

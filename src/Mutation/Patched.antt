-- ===== src/Mutation/Patched.antt =====
-- What performMutation hands on for an object with a patch: a directory below the temporary one that
-- it has removed by then, whatever the configuration did.
use ocm_controller.Prelude.{ℕ, String, ◌≡◌, refl, sym, ap, ◌∙◌, Option, none, some, arith}
use mathlib.Core.Path.{subst}
use ocm_controller.Prelude.Outcome.{ok, context, context-ok, bind-ok, step-ok}
use ocm_controller.Status.Runtime.{Runtime}
use ocm_controller.Component.Names.{Identity}
use ocm_controller.Mutation.Types.{DataReference, PatchStrategicMerge}
use ocm_controller.Mutation.Services.{MutationServices, GitSource, Artifact}
use ocm_controller.Mutation.Sources.{deref, get_git_source}
use ocm_controller.Mutation.Patch.{
  strategic_merge_patch, source_identity, kustomization_of, replace_file,
}
use ocm_controller.Mutation.Looper.{
  Here, mutate_by_config, patch_in, mutate_by_patch, config_step, patch_step, perform_mutation,
}

module _ (r : Runtime) (s : MutationServices r) (fuel : ℕ) where
  open s use {
    Cluster, Bytes, secure_join, base_dir, remove_all, gzip, untar, fetch_archive,
    marshal_kustomization, write_file, join_path, secure_build, mkdir_temp,
  }

  -- the result of a patch in `tmp_dir`
  record IsBelow (target_path tmp_dir dir : String) (id : Identity) : Type 0 where
    source : GitSource
    artifact : Artifact
    work : String
    out : String
    found : source.artifact ≡ some artifact
    working : secure_join tmp_dir "work" ≡ ok work
    targeted : secure_join work target_path ≡ ok out
    based : dir ≡ base_dir out
    identified : id ≡ source_identity source artifact

  some_of : {A : Type 0} (o : Option A) {a : A} → deref o ≡ ok a → o ≡ some a
  some_of none h = cc
  some_of (some a) h = cc h

  strategic_merge_patch-IsBelow :
      (source : GitSource) (resource : Bytes) (tmp_dir source_path target_path : String)
      (k : Cluster) {dir : String} {id : Identity}
      → (strategic_merge_patch r s source resource tmp_dir source_path target_path k).0
        ≡ ok (dir, id)
      → IsBelow target_path tmp_dir dir id
  unfolding strategic_merge_patch
  strategic_merge_patch-IsBelow source resource tmp_dir source_path target_path k h =
      let (work, working, h₁) = bind-ok (secure_join tmp_dir "work") _ _ h in
      let (archive, _, h₂) = bind-ok (gzip resource) _ _ h₁ in
      let (_, _, h₃) = bind-ok (untar archive work k).0 _ _ h₂ in
      let (artifact, found, h₄) = bind-ok (deref source.artifact) _ _ h₃ in
      let (_, _, h₅) = bind-ok (fetch_archive artifact.url artifact.digest work _).0 _ _ h₄ in
      let (manifest, _, h₆) =
        bind-ok (marshal_kustomization (kustomization_of source_path target_path)) _ _ h₅ in
      let (_, _, h₇) =
        bind-ok (write_file (join_path work "kustomization.yaml") manifest _).0 _ _ h₆ in
      let (contents, _, h₈) = bind-ok (secure_build tmp_dir work _).0 _ _ h₇ in
      let (out, targeted, h₉) = bind-ok (secure_join work target_path) _ _ h₈ in
      let (_, _, h₁₀) = bind-ok (replace_file r s out contents _).0 _ _ h₉ in
      record {
        source = source;
        artifact = artifact;
        work = work;
        out = out;
        found = some_of source.artifact found;
        working = working;
        targeted = targeted;
        based = ground (arith, h₁₀);
        identified = ground (arith, h₁₀);
      }

  -- The directory that is handed on stood below a temporary directory, which is gone.
  pub record IsRemoved (patch : PatchStrategicMerge) (dir : String) (k : Cluster) : Type 0 where
    pub tmp_dir : String
    pub work : String
    pub out : String
    pub before : Cluster
    pub working : secure_join tmp_dir "work" ≡ ok work
    pub targeted : secure_join work patch.target_path ≡ ok out
    pub based : dir ≡ base_dir out
    pub removed : k ≡ remove_all tmp_dir before

  patch_in-IsBelow :
      (patch : PatchStrategicMerge) (data' : Bytes) (tmp_dir : String) (w : Here r s) {dir : String}
      {id : Identity}
      → (patch_in r s fuel patch data' tmp_dir w).0 ≡ ok (dir, id)
      → IsBelow patch.target_path tmp_dir dir id
  unfolding patch_in
  patch_in-IsBelow patch data' tmp_dir w h =
      let (source, _, h₁) =
        bind-ok
          (context "failed to get patch source" (get_git_source r s patch.source_ref w.cluster).0) _
          _ h in
      let (artifact, _, h₂) = bind-ok (deref source.artifact) _ _ h₁ in
      strategic_merge_patch-IsBelow source data' tmp_dir patch.source_path patch.target_path _
        (context-ok _ _ h₂)

  mutate_by_patch-IsRemoved :
      (patch : PatchStrategicMerge) (data' : Bytes) (w : Here r s) {dir : String} {id : Identity}
      → (mutate_by_patch r s fuel patch data' w).0 ≡ ok (dir, id)
      → IsRemoved patch dir (mutate_by_patch r s fuel patch data' w).1.cluster
  unfolding mutate_by_patch
  mutate_by_patch-IsRemoved patch data' w h =
      let (tmp_dir, _, same) = step-ok (context "tmp dir error" (mkdir_temp w.cluster).0) _ _ h in
      let below = patch_in-IsBelow patch data' tmp_dir _ (ap (λ x. x.0) (sym same) ∙ h) in
      record {
        tmp_dir = tmp_dir;
        work = below.work;
        out = below.out;
        before = (patch_in r s fuel patch data' tmp_dir _).1.cluster;
        working = below.working;
        targeted = below.targeted;
        based = below.based;
        removed = ap (λ x. x.1.cluster) same;
      }

  same-config_step :
      (config : Option DataReference) (data' : Bytes) (w : Here r s)
      → (config_step r s fuel config data' w).1.obj.patch ≡ w.obj.patch
  unfolding mutate_by_config
  same-config_step none data' w = refl
  same-config_step (some c) data' w = ground arith

  -- A mutation with a patch that ends well hands on a directory below a temporary directory, and the
  -- cluster that it leaves, in which this directory is then to be read, is one from which this
  -- temporary directory was removed last.
  pub perform_mutation-IsRemoved :
      (data' : Bytes) (w : Here r s) (patch : PatchStrategicMerge) {dir : String} {id : Identity}
      → w.obj.patch ≡ some patch
      → (perform_mutation r s fuel data' w).0 ≡ ok (dir, id)
      → IsRemoved patch dir (perform_mutation r s fuel data' w).1.cluster
  unfolding perform_mutation
  perform_mutation-IsRemoved data' w patch {dir} {id} patched h =
      let (mutated, _, same) = step-ok (config_step r s fuel w.obj.config_ref data' w).0 _ _ h in
      let w₁ = (config_step r s fuel w.obj.config_ref data' w).1 in
      let patched₁ = same-config_step w.obj.config_ref data' w ∙ patched in
      let same₁ = same ∙ ap (λ o. patch_step r s fuel o data' mutated w₁) patched₁ in
      let removed = mutate_by_patch-IsRemoved patch data' w₁ (ap (λ x. x.0) (sym same₁) ∙ h) in
      subst (λ (k : Cluster). IsRemoved patch dir k) (ap (λ x. x.1.cluster) (sym same₁)) removed

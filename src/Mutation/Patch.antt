-- ===== src/Mutation/Patch.antt =====
-- strategicMergePatch of controllers/configuration_strat_merge_patch.go.
use ocm_controller.Prelude.{String, [], ◌∷◌}
use ocm_controller.Prelude.Outcome.{Op, lift, pure, ◌>>=◌}
use ocm_controller.Status.Runtime.{Runtime}
use ocm_controller.Component.Names.{Identity}
use ocm_controller.Mutation.Services.{MutationServices, GitSource, Artifact, Kustomization}
use ocm_controller.Mutation.Sources.{deref}

abbrev pub kustomization_of : String → String → Kustomization
kustomization_of source_path target_path = record {
  resources = source_path ∷ [];
  patches = target_path ∷ [];
}

-- the identity of a patched resource
abbrev pub source_identity : GitSource → Artifact → Identity
source_identity source artifact =
    ("source-name", source.key.name)
    ∷ ("source-namespace", source.key.namespace)
    ∷ ("source-artifact-checksum", artifact.digest)
    ∷ []

module _ (r : Runtime) (s : MutationServices r) where
  open s use {
    Cluster, Bytes, secure_join, join_path, gzip, untar, fetch_archive, marshal_kustomization,
    write_file, secure_build, remove_file, base_dir,
  }

  -- Where a file of the working directory is replaced by what the patch gives: Remove, Create, Write
  -- and Close.
  abbrev pub replace_file : String → Bytes → Op Cluster (Unit {0})
  replace_file path contents = do removed ← remove_file path; write_file path contents

  unfoldable pub strategic_merge_patch :
      GitSource → Bytes → String → String → String → Op Cluster (String × Identity)
  strategic_merge_patch source resource tmp_dir source_path target_path = do
    work_dir ← lift (secure_join tmp_dir "work")
    archive ← lift (gzip resource)
    unpacked ← untar archive work_dir
    artifact ← lift (deref source.artifact)
    fetched ← fetch_archive artifact.url artifact.digest work_dir
    manifest ← lift (marshal_kustomization (kustomization_of source_path target_path))
    written ← write_file (join_path work_dir "kustomization.yaml") manifest
    contents ← secure_build tmp_dir work_dir
    output_path ← lift (secure_join work_dir target_path)
    replaced ← replace_file output_path contents
    pure (base_dir output_path, source_identity source artifact)

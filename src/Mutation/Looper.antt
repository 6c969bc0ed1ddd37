-- ===== src/Mutation/Looper.antt =====
-- ReconcileMutationObject of controllers/mutation_reconcile_looper.go, with performMutation, mutate,
-- configure and localize. The removal of temporary directories is deferred where the code defers it.
use ocm_controller.Prelude.{
  ℕ, String, Bool, true, false, ◌||◌, Option, none, some, [], if◌then◌else◌, lookup, nat_eq,
}
use ocm_controller.Prelude.Outcome.{
  ok, err, plain, not_a_tar, Op, reading, in_context, lift, pure, ◌>>=◌,
}
use ocm_controller.Status.Runtime.{Runtime}
use ocm_controller.Status.World.{World}
use ocm_controller.Component.Names.{Identity}
use ocm_controller.Snapshot.Types.{text_or_empty}
use ocm_controller.Mutation.Types.{DataReference, MutationObject, PatchStrategicMerge}
use ocm_controller.Mutation.Services.{MutationServices}
use ocm_controller.Mutation.Rules.{
  create_substitution_rules_for_localization, create_substitution_rules_for_configuration_values,
}
use ocm_controller.Mutation.Sources.{
  deref, get_data, get_identity, get_component_version_of, get_git_source, get_values,
}
use ocm_controller.Mutation.Patch.{strategic_merge_patch}

abbrev pub is_some : {A : Type 0} → Option A → Bool
is_some none = false
is_some (some a) = true

abbrev pub version_in : Identity → String
version_in id = text_or_empty (lookup "component-version" id)

module _ {C K O : Type 0} where
  -- a call on the cluster, in a world
  abbrev pub on_cluster : {A : Type 0} → Op K A → Op (World C K O) A
  on_cluster call w = let (x, k) = call w.cluster in (x, record w { cluster = k })

  -- fields of the object are written
  abbrev pub set_status : (O → O) → Op (World C K O) (Unit {0})
  set_status f w = (ok tt, record w { obj = f w.obj })

  -- a deferred call on the cluster that cannot fail
  abbrev pub finally : {A : Type 0} → (K → K) → Op (World C K O) A → Op (World C K O) A
  finally last call w = let (x, w') = call w in (x, record w' { cluster = last w'.cluster })

abbrev pub Here : (r : Runtime) → MutationServices r → Type 0
Here r s = World r.Conditions s.Cluster MutationObject

module _ (r : Runtime) (s : MutationServices r) (fuel : ℕ) where
  open s use {
    Cluster, Bytes, Rules, size, is_tar, new_temp_fs, mkdir_temp, remove_all, extract_tar,
    substitute, write_snapshot,
  }

  -- A new directory with the content of the archive. The path of the directory is the result.
  unfoldable pub unpack : Bytes → Op Cluster String
  unpack data' = do
    dir ← in_context "fs error" new_temp_fs
    (if is_tar data'
        then (do unpacked ← in_context "extract tar error" (extract_tar dir data'); pure dir)
        else lift (err not_a_tar))

  abbrev pub apply_rules : String → Rules → Op Cluster String
  apply_rules dir rules = do
    done ← in_context "localization substitution failed" (substitute rules dir)
    pure dir

  unfoldable pub configure : MutationObject → Bytes → Bytes → Op Cluster String
  configure obj data' config_obj = do
    values ← in_context "failed to get values" (get_values r s obj)
    dir ← unpack data'
    rules ← lift (create_substitution_rules_for_configuration_values r s config_obj values)
    apply_rules dir rules

  unfoldable pub localize : DataReference → Bytes → Bytes → Op Cluster String
  localize config_ref data' config_obj = do
    cv ← in_context "failed to get component version" (get_component_version_of r s config_ref)
    resource ← lift (deref config_ref.resource_ref)
    dir ← unpack data'
    rules ← in_context "failed to create substitution rules for localization" (
        reading (λ k.
          create_substitution_rules_for_localization r s fuel k cv config_obj
            resource.reference_path))
    apply_rules dir rules

  unfoldable pub mutate : MutationObject → DataReference → Bytes → Bytes → Op Cluster String
  mutate obj config_ref source_data config_data =
      if is_some obj.values || is_some obj.values_from
      then in_context "failed to configure resource" (configure obj source_data config_data)
      else localize config_ref source_data config_data

  -- the block under the test of spec.configRef
  unfoldable pub mutate_by_config : DataReference → Bytes → Op (Here r s) (String × Identity)
  mutate_by_config config_ref source_data = do
    config_data ←
        in_context "failed to get data for config ref" (on_cluster (get_data r s config_ref))
    id ←
        in_context "failed to get identity for config ref"
          (on_cluster (get_identity r s config_ref))
    recorded ← set_status λ obj. record obj { latest_config_version = version_in id }
    dir ← λ w. on_cluster (mutate w.obj config_ref source_data config_data) w
    pure (dir, id)

  unfoldable pub patch_in : PatchStrategicMerge → Bytes → String → Op (Here r s) (String × Identity)
  patch_in patch source_data tmp_dir = do
    source ←
        in_context "failed to get patch source" (on_cluster (get_git_source r s patch.source_ref))
    artifact ← lift (deref source.artifact)
    recorded ← set_status λ obj. record obj { latest_patch_source_version = artifact.revision }
    in_context "failed to perform strategic merge patch" (
        on_cluster (
          strategic_merge_patch r s source source_data tmp_dir patch.source_path patch.target_path))

  -- the block under the test of spec.patchStrategicMerge
  unfoldable pub mutate_by_patch : PatchStrategicMerge → Bytes → Op (Here r s) (String × Identity)
  mutate_by_patch patch source_data = do
    tmp_dir ← in_context "tmp dir error" (on_cluster mkdir_temp)
    finally (remove_all tmp_dir) (patch_in patch source_data tmp_dir)

  abbrev pub config_step : Option DataReference → Bytes → Op (Here r s) (String × Identity)
  config_step none source_data = pure ("", [])
  config_step (some config_ref) source_data = mutate_by_config config_ref source_data

  abbrev pub patch_step :
      Option PatchStrategicMerge → Bytes → String × Identity → Op (Here r s) (String × Identity)
  patch_step none source_data mutated = pure mutated
  patch_step (some patch) source_data mutated = mutate_by_patch patch source_data

  unfoldable pub perform_mutation : Bytes → Op (Here r s) (String × Identity)
  perform_mutation source_data = do
    mutated ← λ w. config_step w.obj.config_ref source_data w
    λ w. patch_step w.obj.patch source_data mutated w

  unfoldable pub write_mutated : String × Identity → Op (Here r s) String
  write_mutated (dir, id) =
      finally (remove_all dir)
        (in_context "error writing snapshot" (λ w. on_cluster (write_snapshot w.obj dir id) w))

  unfoldable pub mutate_and_write : Bytes → Op (Here r s) (Unit {0})
  mutate_and_write source_data =
      if nat_eq (size source_data) 0
      then lift (err (plain "source resource data cannot be empty"))
      else (do
        mutated ← perform_mutation source_data
        digest ← write_mutated mutated
        set_status λ obj. record obj { latest_snapshot_digest = digest })

  unfoldable pub reconcile_mutation_object : Op (Here r s) (Unit {0})
  reconcile_mutation_object = do
    source_data ←
        in_context "failed to get data for source ref"
          (λ w. on_cluster (get_data r s w.obj.source_ref) w)
    source_id ←
        in_context "failed to get identity for source ref"
          (λ w. on_cluster (get_identity r s w.obj.source_ref) w)
    recorded ← set_status λ obj. record obj { latest_source_version = version_in source_id }
    mutate_and_write source_data

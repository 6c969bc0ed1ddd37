-- ===== src/Snapshot/Writer.antt =====
-- OCIWriter.Write of pkg/snapshot/snapshot_writer.go, over a cache.
use ocm_controller.Prelude.{ℕ, String, false, Option, none, some, [], if◌then◌else◌, lookup}
use ocm_controller.Prelude.Outcome.{
  Error, Result, ok, err, panic, out_of_fuel, join, context, Op, reading, in_context, lift, pure,
  ◌>>=◌,
}
use ocm_controller.Component.Names.{Identity, construct_repository_name, helm_chart_key}
use ocm_controller.Ocm.Fetch.{chart_media_type}
use ocm_controller.Cache.Contract.{Cache}
use ocm_controller.Resource.Types.{SnapshotObject}
use ocm_controller.Mutation.Types.{MutationObject}
use ocm_controller.Snapshot.Tar.{TarServices, build_tar}

-- The state of the cluster and of the file system, and that of the cache.
pub record Store (K C : Type 0) : Type 0 where
  pub cluster : K
  pub cache : C

pub record WriterServices (c : Cache) : Type 1 where
  pub Cluster : Type 0
  -- os.CreateTemp and its name, what buildTar calls, and os.Open
  pub create_temp : Op Cluster String
  pub tar : TarServices Cluster
  pub open_file : Cluster → String → Result c.Data
  -- Close of the opened file, unless it is closed already, and os.Remove
  pub close_file : String → Cluster → Option Error × Cluster
  pub remove_file : String → Cluster → Option Error × Cluster
  pub hash : Identity → Result ℕ
  pub create_or_update :
      SnapshotObject
      → (SnapshotObject → Result SnapshotObject)
      → Cluster
      → Result SnapshotObject × Cluster
  pub set_owner_reference : MutationObject → SnapshotObject → Result SnapshotObject

abbrev pub media_type_of : Identity → String
media_type_of identity = elim (lookup helm_chart_key identity) [
  | some v ↦ chart_media_type
  | none ↦ ""
]

-- the object whose key is looked up
abbrev pub empty_snapshot : MutationObject → SnapshotObject
empty_snapshot owner = record {
  key = record { namespace = owner.key.namespace; name = owner.snapshot_name };
  created = false;
  owners = [];
  identity = [];
  digest = "";
  tag = "";
}

-- a result, with an error that a deferred call may add
abbrev pub with_error : {A : Type 0} → Option Error → Result A → Result A
with_error none x = x
with_error (some e) (ok a) = err e
with_error (some e) (err x) = err (join x e)
with_error (some e) panic = panic
with_error (some e) out_of_fuel = out_of_fuel

module _ (c : Cache) (s : WriterServices c) where
  open s use {
    Cluster, create_temp, tar, open_file, close_file, remove_file, hash, create_or_update,
    set_owner_reference,
  }

  abbrev pub Here : Type 0
  Here = Store Cluster c.State

  abbrev pub on_cluster : {A : Type 0} → Op Cluster A → Op Here A
  on_cluster call h = let (x, k) = call h.cluster in (x, record h { cluster = k })

  abbrev pub on_cache : {A : Type 0} → Op c.State A → Op Here A
  on_cache call h = let (x, k) = call h.cache in (x, record h { cache = k })

  abbrev pub with_spec : MutationObject → Identity → String → SnapshotObject → SnapshotObject
  with_spec owner identity digest o = record o {
    identity = identity;
    digest = digest;
    tag = owner.resource_version;
  }

  -- the function that CreateOrUpdate calls
  unfoldable pub fill : MutationObject → Identity → String → SnapshotObject → Result SnapshotObject
  fill owner identity digest o =
      if o.created
      then ok (with_spec owner identity digest o)
      else elim (context "failed to set owner reference on snapshot"
          (set_owner_reference owner o)) [
            | ok owned ↦ ok (with_spec owner identity digest owned)
            | err e ↦ err e
            | panic ↦ panic
            | out_of_fuel ↦ out_of_fuel
          ]

  -- from the repository name on
  unfoldable pub push_and_record : MutationObject → Identity → c.Data → Op Here String
  push_and_record owner identity file = do
    name ← lift (context "failed to construct name" (construct_repository_name hash identity))
    digest ←
        in_context "failed to push blob to local registry"
          (on_cache (c.push_data file (media_type_of identity) name owner.resource_version))
    snapshot ←
        in_context "failed to create or update component descriptor"
          (on_cluster (create_or_update (empty_snapshot owner) (fill owner identity digest)))
    pure digest

  -- the deferred function: the file is closed and removed, and what fails there joins the error
  unfoldable pub closing : String → Op Here String → Op Here String
  closing path call h =
      let (x, h') = call h in
      let (closed, k) = close_file path h'.cluster in
      let (removed, k') = remove_file path k in
      (with_error removed (with_error closed x), record h' { cluster = k' })

  unfoldable pub write_snapshot : MutationObject → String → Identity → Op Here String
  write_snapshot owner source_dir identity = do
    path ← in_context "fs error" (on_cluster create_temp)
    built ← in_context "build tar error" (on_cluster (build_tar tar path source_dir))
    file ← in_context "failed to open created archive" (reading (λ h. open_file h.cluster path))
    closing path (push_and_record owner identity file)

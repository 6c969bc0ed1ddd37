-- ===== src/Examples/Writers.antt =====
-- A snapshot is written to the cache of an OCI registry.
use ocm_controller.Prelude.{◌≡◌, refl, none, [], ◌∷◌, true}
use ocm_controller.Prelude.Outcome.{ok}
use ocm_controller.Component.Names.{Identity, construct_repository_name, hash_identity}
use ocm_controller.Cache.Contract.{Cache}
use ocm_controller.Cache.Repository.{
  contains_text, push_streaming_image, parse_reference, compute_stream_blob,
}
use ocm_controller.Cache.Client.{
  oci_cache, push_data, new_repository, with_transport, setup_certificates, read_certificates,
}
use ocm_controller.Cache.Opened.{IsTag}
use ocm_controller.Cache.Stored.{oci_cache-IsCache}
use ocm_controller.Snapshot.Tar.{build_tar, add_visits, add_visit, add_file}
use ocm_controller.Snapshot.Writer.{
  WriterServices, Here, write_snapshot, closing, push_and_record, fill,
}
use ocm_controller.Snapshot.Written.{WriterLaws, IsArchive, IsWritten, write_snapshot-IsWritten}
use ocm_controller.Examples.Registries.{registry, registry-laws, session}
use ocm_controller.Examples.Archives.{Files, set_file, no_files, tars, tars-laws}
use ocm_controller.Examples.Mutations.{localization}

abbrev cache : Cache
cache = oci_cache registry

abbrev services : WriterServices cache
services = record {
  Cluster = Files;
  create_temp = λ k. (ok "/tmp/snapshot.tgz", k);
  tar = tars;
  open_file = λ k path. ok "archive";
  close_file = λ path k. (none, k);
  remove_file = λ path k. (none, set_file path [] k);
  hash = λ identity. ok 7;
  create_or_update = λ o f k. (f o, k);
  set_owner_reference = λ owner o. ok (record o { created = true });
}

services-laws : WriterLaws cache services
services-laws = record { tar = tars-laws; created = λ o f k o' h. (o, refl, h) }

abbrev store : Here cache services
store = record { cluster = no_files; cache = session }

abbrev identity : Identity
identity = ("component-name", "app") ∷ []

version_is_tag : IsTag registry localization.resource_version
unfolding contains_text
version_is_tag = refl

write_ends : (write_snapshot cache services localization "/tmp/fs" identity store).0 ≡ ok "sha256:1"
unfolding write_snapshot closing push_and_record construct_repository_name hash_identity push_data
    new_repository with_transport setup_certificates read_certificates push_streaming_image
    parse_reference contains_text compute_stream_blob fill build_tar add_visits add_visit add_file
write_ends = refl

write_snapshot-IsWritten_example :
    (file : cache.Data) × IsArchive cache services services-laws
      (IsTag registry)
      (oci_cache-IsCache registry registry-laws)
      "/tmp/fs"
      store
      file
    × IsWritten cache services services-laws
        (IsTag registry)
        (oci_cache-IsCache registry registry-laws)
        localization
        identity
        "sha256:1"
        file
        (write_snapshot cache services localization "/tmp/fs" identity store).1
write_snapshot-IsWritten_example =
    write_snapshot-IsWritten cache services services-laws (IsTag registry)
      (oci_cache-IsCache registry registry-laws) localization "/tmp/fs" identity store "sha256:1"
      version_is_tag write_ends

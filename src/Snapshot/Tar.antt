-- ===== src/Snapshot/Tar.antt =====
-- buildTar of pkg/snapshot/tar.go. Closing a file on a way out with an error, and the removal of the
-- temporary file there, whose `err` is never set, have no effect that is read. The walk is of the source
-- directory, into which nothing is written meanwhile.
use ocm_controller.Prelude.{String, Bool, true, false, not, ◌||◌, List, [], ◌∷◌, if◌then◌else◌}
use ocm_controller.Prelude.Outcome.{Result, ok, err, plain, Error, Op, reading, lift, pure, ◌>>=◌}

-- the mode of a file: a directory, a regular file, or anything else
pub data FileKind : Type 0 where
  directory regular irregular : FileKind

abbrev pub is_regular : FileKind → Bool
is_regular regular = true
is_regular _ = false

abbrev pub is_directory : FileKind → Bool
is_directory directory = true
is_directory _ = false

-- what filepath.Walk calls its function with: a path and its kind, or an error
pub data Visit : Type 0 where
  visit : (path : String) → FileKind → Visit
  failed_visit : Error → Visit

-- os, filepath and archive/tar
pub record TarServices (State : Type 0) : Type 1 where
  -- tar.Header, as FileInfoHeader gives it, and with a name and without environment specific data
  pub Header : Type 0
  -- the error of os.Stat is that there is no such file
  pub is_missing : State → String → Bool
  pub create_temp : Op State String
  pub walk : State → String → List Visit
  pub file_info_header : State → String → FileKind → Result Header
  pub is_abs : String → Bool
  pub rel : String → String → Result String
  pub with_name : Header → String → Header
  pub without_environment : Header → Header
  -- the archive in a file: WriteHeader, io.Copy of an opened file, which is closed, and Close
  pub write_header : String → Header → Op State (Unit {0})
  pub copy_file : String → String → Op State (Unit {0})
  pub close_archive : String → Op State (Unit {0})
  pub chmod : String → Op State (Unit {0})
  pub rename : String → String → Op State (Unit {0})

module _ {State : Type 0} (s : TarServices State) where
  open s use {
    Header, is_missing, create_temp, walk, file_info_header, is_abs, rel, with_name,
    without_environment, write_header, copy_file, close_archive, chmod, rename,
  }

  abbrev pub relative_path : String → String → Result String
  relative_path source_dir p = if is_abs source_dir then rel source_dir p else ok p

  -- a file or directory of the walk
  unfoldable pub add_file : String → String → String → FileKind → Op State (Unit {0})
  add_file tmp source_dir p kind = do
    header ← reading (λ h. file_info_header h p kind)
    name ← lift (relative_path source_dir p)
    written ← write_header tmp (without_environment (with_name header name))
    (if is_regular kind then copy_file tmp p else pure tt)

  -- the function that Walk calls
  unfoldable pub add_visit : String → String → Visit → Op State (Unit {0})
  add_visit tmp source_dir (failed_visit e) = lift (err e)
  add_visit tmp source_dir (visit p kind) =
      if not (is_regular kind || is_directory kind) then pure tt else add_file tmp source_dir p kind

  unfoldable pub add_visits : String → String → List Visit → Op State (Unit {0})
  add_visits tmp source_dir [] = pure tt
  add_visits tmp source_dir (v ∷ vs) = do
    added ← add_visit tmp source_dir v
    add_visits tmp source_dir vs

  unfoldable pub build_tar : String → String → Op State (Unit {0})
  build_tar artifact_path source_dir h =
      if is_missing h source_dir
      then (err (plain "invalid source dir path"), h)
      else (do
        tmp ← create_temp
        visits ← reading (λ k. ok (walk k source_dir))
        added ← add_visits tmp source_dir visits
        closed ← close_archive tmp
        changed ← chmod tmp
        rename tmp artifact_path)
          h

-- ===== src/Node/Tasks/Paths.antt =====
-- CPCluster_node/src/lib.rs: the tasks `DiskWrite` and `DiskRead`, which may only touch files below the
-- storage directory. What a path means is up to the operating system, and a parameter.
use cpcluster.Prelude.{
  String, Bool, Option, none, some, Result, ok, err, Error, Outcome, done, failed, Ran, returned,
  panicked, if◌then◌else◌,
}
use cpcluster.Prelude.Files.{Files, read, write}
use cpcluster.Common.Protocol.{Bytes, TaskResult, bytes, written, error}
use cpcluster.Node.Disk.{join}

-- `starts_with` compares whole components, and `exists`, `canonicalize` and `create_dir_all` look at
-- the file system; `opened` is the file that a write at a path opens, once its last link is followed.
pub record PathCalls : Type 0 where
  pub storage_dir : String
  pub create_dir_all : String → Files Bytes → Outcome (Files Bytes)
  pub canonicalize : Files Bytes → String → Outcome String
  pub exists : Files Bytes → String → Bool
  pub opened : Files Bytes → String → String
  pub parent : String → Option String
  pub file_name : String → Option String
  pub starts_with : String → String → Bool
  pub message : Error → String

module _ (paths : PathCalls) where
  open paths use {
    storage_dir, create_dir_all, canonicalize, exists, opened, parent, file_name, starts_with,
    message,
  }

  -- `if let Some(parent) = full.parent()`
  abbrev pub create_parent : Option String → Files Bytes → Outcome (Files Bytes)
  create_parent none files = done files
  create_parent (some p) files = create_dir_all p files

  -- `p.join(full.file_name().unwrap())`
  abbrev pub join_name : Option String → String → Ran (Outcome String)
  join_name none p = panicked
  join_name (some name) p = returned (done (join p name))

  abbrev pub join_file : String → Outcome String → Ran (Outcome String)
  join_file full (done p) = join_name (file_name full) p
  join_file full (failed e) = returned (failed e)

  abbrev pub below_parent : Files Bytes → String → Option String → Ran (Outcome String)
  below_parent files full none = panicked
  below_parent files full (some p) = join_file full (canonicalize files p)

  -- The path with its links resolved, where the file need not exist yet.
  unfoldable pub canonical_of : Files Bytes → String → Ran (Outcome String)
  canonical_of files full =
      if exists files full
      then returned (canonicalize files full)
      else below_parent files full (parent full)

  abbrev pub written_or_error : Result (Unit {0}) → TaskResult
  written_or_error (ok u) = written
  written_or_error (err e) = error (message e)

  unfoldable pub checked_write :
      String → Bytes → Ran (Outcome String) → Files Bytes → Ran TaskResult × Files Bytes
  checked_write base payload panicked files = (panicked, files)
  checked_write base payload (returned (failed e)) files = (returned (error e), files)
  checked_write base payload (returned (done canonical)) files =
      if starts_with canonical base
      then (
        returned (written_or_error (write (opened files canonical) payload files).0),
        (write (opened files canonical) payload files).1,
      )
      else (returned (error "Invalid path"), files)

  abbrev pub write_in_parent :
      String → String → Bytes → Outcome (Files Bytes) → Files Bytes → Ran TaskResult × Files Bytes
  write_in_parent base full payload (failed e) files = (returned (error e), files)
  write_in_parent base full payload (done created) files =
      checked_write base payload (canonical_of created full) created

  abbrev pub write_below :
      Outcome String → String → Bytes → Files Bytes → Ran TaskResult × Files Bytes
  write_below (failed e) path payload files = (returned (error e), files)
  write_below (done base) path payload files =
      write_in_parent base (join base path) payload (create_parent (parent (join base path)) files)
        files

  abbrev pub write_in_storage :
      Outcome (Files Bytes) → String → Bytes → Files Bytes → Ran TaskResult × Files Bytes
  write_in_storage (failed e) path payload files = (returned (error e), files)
  write_in_storage (done created) path payload files =
      write_below (canonicalize created storage_dir) path payload created

  unfoldable pub write_task : String → Bytes → Files Bytes → Ran TaskResult × Files Bytes
  write_task path payload files =
      write_in_storage (create_dir_all storage_dir files) path payload files

  abbrev pub contents_or_error : Option Bytes → TaskResult
  contents_or_error (some b) = bytes b
  contents_or_error none = error (message Error.io_error)

  abbrev pub checked_read : String → Outcome String → Files Bytes → TaskResult
  checked_read base (failed e) files = error e
  checked_read base (done canonical) files =
      if starts_with canonical base
      then contents_or_error (read canonical files)
      else error "Invalid path"

  abbrev pub read_below : Outcome String → String → Files Bytes → TaskResult
  read_below (failed e) path files = error e
  read_below (done base) path files = checked_read base (canonicalize files (join base path)) files

  unfoldable pub read_task : String → Files Bytes → TaskResult
  read_task path files = read_below (canonicalize files storage_dir) path files

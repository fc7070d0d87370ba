-- ===== src/Node/Disk.antt =====
-- CPCluster_node/src/disk_store.rs: files under a directory, with a quota on their bytes.
pub mod Quota
pub mod Stored
use Prim.Native.String
use cpcluster.Prelude.{
  ℕ, ◌+◌, ◌-◌, ◌*◌, ◌%◌, ◌^◌, String, Bool, true, false, ◌&&◌, not, Option, none, some, List, [],
  ◌∷◌, Result, ok, err, io_error, ltb, length, if◌then◌else◌,
}
use cpcluster.Prelude.Action.{Action}
use cpcluster.Prelude.Dict
use cpcluster.Prelude.Dict.{Dict}
use cpcluster.Prelude.Files.{Files, read, write}
use cpcluster.Common.Protocol.{Bytes}
use text.Mathlib.Text.{starts_with}

-- The store and the file system that it writes to. `usage` is an atomic counter that clones share.
pub record DiskStore : Type 0 where
  pub dir : String
  pub quota_bytes : ℕ
  pub usage : ℕ
  pub files : Files Bytes

-- `dir.join(id)`: an absolute path replaces the directory.
unfoldable pub join : String → String → String
join dir id = if starts_with id "/" then id else String.◌++◌ dir (String.◌++◌ "/" id)

-- `DiskStore::new`, given the size of the directory (0 if it could not be found out).
unfoldable pub new : String → ℕ → ℕ → Files Bytes → DiskStore
new dir quota_mb directory_size files = record {
  dir = dir;
  quota_bytes = quota_mb * 1024 * 1024 % 2 ^ 64;
  usage = directory_size;
  files = files;
}

-- `metadata(path).len()`, or 0 where there is no file.
abbrev pub size_of : Option Bytes → ℕ
size_of none = 0
size_of (some b) = length b

-- After the quota was checked. The counter goes up only where the write succeeds.
unfoldable pub write_file : String → ℕ → Bytes → Action DiskStore (Unit {0})
write_file path old_size payload d =
    let wrote = write path payload d.files in
    elim wrote.0 [
      | ok u ↦ (
        ok tt,
        record d { files = wrote.1; usage = (d.usage + (length payload - old_size)) % 2 ^ 64 },
      )
      | err e ↦ (err e, record d { files = wrote.1 })
    ]

unfoldable pub store : String → Bytes → Action DiskStore (Unit {0})
unfolding write_file
store id payload d =
    let path = join d.dir id in
    let old_size = size_of (read path d.files) in
    let new_usage = (d.usage - old_size + length payload) % 2 ^ 64 in
    if ltb d.quota_bytes new_usage then (err io_error, d) else write_file path old_size payload d

unfoldable pub load : String → DiskStore → Option Bytes
load id d = read (join d.dir id) d.files

-- The remaining free space that `stats` reports.
unfoldable pub free : DiskStore → ℕ
free d = d.quota_bytes - d.usage

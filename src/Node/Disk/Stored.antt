-- ===== src/Node/Disk/Stored.antt =====
-- What a disk store reads back, and what its counter misses when a file shrinks.
use cpcluster.Prelude.{◌^◌, ◌≤◌, ◌<◌, ◌≡◌, String, some, ok, length, if◌then◌else◌, arith, str_eq}
use cpcluster.Prelude.Dict.{get-insert}
use cpcluster.Common.Protocol.{Bytes}
use cpcluster.Node.Disk.{DiskStore, join, write_file, store, load, free}

module _ (d : DiskStore) (id : String) (payload : Bytes) where
  -- After a store that succeeded, its id is loaded with the new payload, and so is every id with
  -- the same path; all others are loaded as before.
  pub load-store :
      (j : String)
      → (store id payload d).0 ≡ ok tt
      → load j (store id payload d).1
        ≡ (if str_eq (join d.dir id) (join d.dir j) then some payload else load j d)
  unfolding store write_file load
  load-store j h =
      ground (arith, get-insert (join d.dir id) (join d.dir j) payload d.files.contents)

  -- Where a file is overwritten by one that is no longer, and the counter is a number of 64 bits, the
  -- free space that is reported stays as it was.
  pub free-store_shrunk :
      (old : Bytes)
      → load id d ≡ some old
      → length payload ≤ length old
      → d.usage < 2 ^ 64
      → free (store id payload d).1 ≡ free d
  unfolding store write_file load free
  free-store_shrunk old h le w = ground (arith, h)

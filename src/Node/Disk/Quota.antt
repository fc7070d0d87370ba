-- ===== src/Node/Disk/Quota.antt =====
-- The quota of a disk store, and what its counter says of the files.
use cpcluster.Prelude.{
  ℕ, ◌+◌, ◌-◌, ◌%◌, ◌^◌, ◌≤◌, ◌<◌, ◌≡◌, String, Bool, [], ◌∷◌, ltb, length, if◌then◌else◌, arith,
  eq_iff, Bool-cases, ◌⊎◌, inl, inr, true, none,
}
use cpcluster.Prelude.Dict
use cpcluster.Prelude.Dict.{Dict, get}
use cpcluster.Prelude.Files.{read}
use cpcluster.Common.Protocol.{Bytes}
use cpcluster.Node.Disk.{DiskStore, join, size_of, write_file, store}

-- The bytes of the files whose path passes a test, such as to lie in the directory of the store.
unfoldable pub total : (String → Bool) → Dict Bytes → ℕ
total inside [] = 0
total inside ((path, b) ∷ files) = (if inside path then length b else 0) + total inside files

pub total-insert :
    (inside : String → Bool) (k : String) (b : Bytes) (files : Dict Bytes)
    → total inside (Dict.insert k b files) + (if inside k then size_of (get k files) else 0)
      ≡ total inside files + (if inside k then length b else 0)
unfolding total Dict.insert get
total-insert inside k b [] = ground arith
total-insert inside k b ((j, w) ∷ files) = ground (arith, eq_iff j k, total-insert inside k b files)

-- The files take no more than the counter says, and the counter stays within the quota.
pub record WithinQuota (inside : String → Bool) (d : DiskStore) : Type 0 where
  pub counted : total inside d.files.contents ≤ d.usage
  pub bounded : d.usage ≤ d.quota_bytes
  pub word : d.quota_bytes < 2 ^ 63

-- The arithmetic of a write of `len` bytes over `old`, with no wrap-around.
quota_arithmetic :
    (total usage quota old len : ℕ)
    → total ≤ usage
    → usage ≤ quota
    → quota < 2 ^ 63
    → len < 2 ^ 63
    → (usage - old + len) % 2 ^ 64 ≤ quota
    → ((usage + (len - old)) % 2 ^ 64 ≤ quota)
      × ((usage + (len - old)) % 2 ^ 64 ≡ usage + (len - old))
quota_arithmetic total usage quota old len h k q l fits = (omega arith, omega arith)

module _ (inside : String → Bool) (d : DiskStore) (id : String) (payload : Bytes)
    (v : WithinQuota inside d) (small : length payload < 2 ^ 63)
    (whole : (d.files.accepts (join d.dir id) ≡ true)
      ⊎ (d.files.remains (join d.dir id) ≡ none)) where
  written-WithinQuota :
      (d.usage - size_of (read (join d.dir id) d.files) + length payload) % 2 ^ 64 ≤ d.quota_bytes
      → WithinQuota inside
          (write_file (join d.dir id) (size_of (read (join d.dir id) d.files)) payload d).1
  unfolding write_file
  written-WithinQuota fits =
      let path = join d.dir id in
      let old = size_of (read path d.files) in
      let sums =
        quota_arithmetic (total inside d.files.contents) d.usage d.quota_bytes old (length payload)
          v.counted v.bounded v.word small fits in
      let counts = total-insert inside path payload d.files.contents in
      elim (Bool-cases (d.files.accepts path)) [
        | inl yes' ↦
            rw (yes', write_file)
              (record {
                counted = ground (arith, sums.1, counts, v.counted);
                bounded = sums.0;
                word = v.word;
              })
        | inr no' ↦ elim whole [
          | inl yes' ↦ cc
          | inr untouched ↦
              rw (no', write_file, untouched)
                (record {
                  counted = ground (arith, v.counted, no', untouched);
                  bounded = v.bounded;
                  word = v.word;
                })
        ]
      ]

  -- Where the files take no more than the counter says, the counter is within the quota, and quota and
  -- payload are below 2 ^ 63, that is so after a store as well, over an old file or not, unless the file
  -- system fails in the middle of the write and leaves something else of the file.
  pub store-WithinQuota : WithinQuota inside (store id payload d).1
  unfolding store
  store-WithinQuota =
      elim (Bool-cases (
        ltb d.quota_bytes
          ((d.usage - size_of (read (join d.dir id) d.files) + length payload) % 2 ^ 64))) [
            | inl over ↦ rw (over, store) v
            | inr fits ↦ rw (fits, store) (written-WithinQuota (ground arith))
          ]

-- ===== src/Node/DirectorySize/Total.antt =====
-- The walk finds the sum of all files, however deep they lie.
use cpcluster.Prelude.{
  ℕ, zero, suc, ◌+◌, ◌%◌, ◌^◌, ◌≡◌, ◌<◌, ◌⊎◌, inl, inr, refl, Bool, true, false, ◌&&◌,
  if◌then◌else◌, List, [], ◌∷◌, ok, err, io_error, arith,
}
use cpcluster.Node.DirectorySize.{
  Entries, end, unreadable, file, folder, special, scan, walk, folders, folders_of,
  directory_size_sync,
}

-- The bytes of all files in a directory and below, without wrap-around.
unfoldable pub bytes_in : Entries → ℕ
bytes_in end = 0
bytes_in unreadable = 0
bytes_in (file n rest) = n + bytes_in rest
bytes_in (folder sub rest) = bytes_in sub + bytes_in rest
bytes_in (special rest) = bytes_in rest

unfoldable pub is_readable : Entries → Bool
is_readable end = true
is_readable unreadable = false
is_readable (file n rest) = is_readable rest
is_readable (folder sub rest) = is_readable sub && is_readable rest
is_readable (special rest) = is_readable rest

unfoldable bytes_of : List Entries → ℕ
bytes_of [] = 0
bytes_of (d ∷ stack) = bytes_in d + bytes_of stack

unfoldable are_readable : List Entries → Bool
are_readable [] = true
are_readable (d ∷ stack) = is_readable d && are_readable stack

-- What a scan of a directory leaves to be done, where it succeeds.
record Progress (d : Entries) (stack : List Entries) (size : ℕ) (after : List Entries × ℕ)
    : Type 0 where
  word : after.1 < 2 ^ 64
  fewer : folders_of after.0 ≡ folders d + folders_of stack
  same_sum : (after.1 + bytes_of after.0) % 2 ^ 64 ≡ (size + (bytes_in d + bytes_of stack)) % 2 ^ 64
  same_readable : are_readable after.0 ≡ (is_readable d && are_readable stack)

scan-Progress :
    (d : Entries) (stack : List Entries) (size : ℕ)
    → size < 2 ^ 64
    → ((scan d stack size ≡ err io_error) × (is_readable d ≡ false))
      ⊎ ((after : List Entries × ℕ) × (scan d stack size ≡ ok after) × Progress d stack size after)
unfolding scan folders folders_of bytes_in is_readable bytes_of are_readable
scan-Progress end stack size w = inr (
  (stack, size),
  refl,
  record { word = w; fewer = omega arith; same_sum = omega arith; same_readable = refl },
)
scan-Progress unreadable stack size w = inl (refl, refl)
scan-Progress (file n rest) stack size w =
    elim (scan-Progress rest stack ((size + n) % 2 ^ 64) (omega arith)) [
      | inl failed ↦ inl failed
      | inr (after, h, p) ↦ inr (
        after,
        h,
        record {
          word = p.word;
          fewer = p.fewer;
          same_sum = omega (arith, p.same_sum);
          same_readable = p.same_readable;
        },
      )
    ]
scan-Progress (folder sub rest) stack size w = elim (scan-Progress rest (sub ∷ stack) size w) [
  | inl failed ↦ inl (failed.0, ground (arith, failed.1))
  | inr (after, h, p) ↦ inr (
    after,
    h,
    record {
      word = p.word;
      fewer = omega (arith, p.fewer);
      same_sum = omega (arith, p.same_sum);
      same_readable = ground (arith, p.same_readable);
    },
  )
]
scan-Progress (special rest) stack size w = elim (scan-Progress rest stack size w) [
  | inl failed ↦ inl failed
  | inr (after, h, p) ↦ inr (
    after,
    h,
    record {
      word = p.word;
      fewer = p.fewer;
      same_sum = p.same_sum;
      same_readable = p.same_readable;
    },
  )
]

walk_total :
    (fuel : ℕ) (stack : List Entries) (size : ℕ)
    → folders_of stack < fuel
    → size < 2 ^ 64
    → walk fuel stack size
      ≡ (if are_readable stack then ok ((size + bytes_of stack) % 2 ^ 64) else err io_error)
unfolding walk folders_of bytes_of are_readable
walk_total zero stack size f w = absurd (omega arith)
walk_total (suc fuel) [] size f w = ground arith
walk_total (suc fuel) (d ∷ stack) size f w = elim (scan-Progress d stack size w) [
  | inl failed ↦ ground (arith, failed.0, failed.1)
  | inr (after, h, p) ↦ ground (
    arith,
    h,
    p.fewer,
    p.same_sum,
    p.same_readable,
    walk_total fuel after.0 after.1 (omega (arith, p.fewer)) p.word,
  )
]

-- The walk finds the sum of the sizes of all files in the directory and below it, modulo 2 ^ 64,
-- an error if anything there cannot be read, and 0 where there is no directory.
pub directory_size_sync_total :
    (exists : Bool) (d : Entries)
    → directory_size_sync exists d
      ≡ (if exists then if is_readable d then ok (bytes_in d % 2 ^ 64) else err io_error else ok 0)
unfolding directory_size_sync bytes_of are_readable
directory_size_sync_total exists d = ground (arith, walk_total (1 + folders_of (d ∷ [])) (d ∷ []) 0)

-- ===== src/Node/DirectorySize.antt =====
-- CPCluster_node/src/disk_store.rs: `directory_size_sync`, which walks a directory with a stack.
pub mod Total
use cpcluster.Prelude.{
  ℕ, zero, suc, ◌+◌, ◌%◌, ◌^◌, Bool, if◌then◌else◌, List, [], ◌∷◌, Result, ok, err, io_error,
  out_of_fuel,
}

-- What `read_dir` yields, entry by entry; a folder carries what `read_dir` yields at its path. The
-- walk of a directory ends early where it, one of its entries or their metadata cannot be read.
pub data Entries : Type 0 where
  end unreadable : Entries
  file : ℕ → Entries → Entries
  folder : Entries → Entries → Entries
  special : Entries → Entries

-- The `for` loop on one directory.
unfoldable pub scan : Entries → List Entries → ℕ → Result (List Entries × ℕ)
scan end stack size = ok (stack, size)
scan unreadable stack size = err io_error
scan (file n rest) stack size = scan rest stack ((size + n) % 2 ^ 64)
scan (folder sub rest) stack size = scan rest (sub ∷ stack) size
scan (special rest) stack size = scan rest stack size

-- The `while let` loop, on fuel.
unfoldable pub walk : ℕ → List Entries → ℕ → Result ℕ
walk zero stack size = err out_of_fuel
walk (suc fuel) [] size = ok size
walk (suc fuel) (d ∷ stack) size = elim (scan d stack size) [
  | ok after ↦ walk fuel after.0 after.1
  | err e ↦ err e
]

-- The directories below one, and those on the stack with all below them.
unfoldable pub folders : Entries → ℕ
folders end = 0
folders unreadable = 0
folders (file n rest) = folders rest
folders (folder sub rest) = 1 + folders sub + folders rest
folders (special rest) = folders rest

unfoldable pub folders_of : List Entries → ℕ
folders_of [] = 0
folders_of (d ∷ stack) = 1 + folders d + folders_of stack

unfoldable pub directory_size_sync : Bool → Entries → Result ℕ
directory_size_sync exists d = if exists then walk (1 + folders_of (d ∷ [])) (d ∷ []) 0 else ok 0

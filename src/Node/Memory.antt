-- ===== src/Node/Memory.antt =====
-- CPCluster_node/src/memory_store.rs: the table of a worker's memory.
use cpcluster.Prelude.{ℕ, String, Option, List, [], ◌∷◌, length}
use cpcluster.Prelude.Dict
use cpcluster.Prelude.Dict.{Dict}
use cpcluster.Common.Protocol.{Bytes}

-- `MemoryStore`; its clones share one table.
pub record MemoryStore : Type 0 where
  pub inner : Dict Bytes

abbrev pub new : MemoryStore
new = record { inner = [] }

unfoldable pub store : String → Bytes → MemoryStore → MemoryStore
store id payload m = record { inner = Dict.insert id payload m.inner }

unfoldable pub load : String → MemoryStore → Option Bytes
load id m = Dict.get id m.inner

sizes : Dict Bytes → List (String × ℕ)
sizes [] = []
sizes ((id, b) ∷ m) = (id, length b) ∷ sizes m

unfoldable pub stats : MemoryStore → List (String × ℕ)
unfolding sizes
stats m = sizes m.inner

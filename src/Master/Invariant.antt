-- ===== src/Master/Invariant.antt =====
-- What the master keeps true of its tables: no port is twice among the free and the held ones, a task is
-- active at one node at most, and no table has a key twice.
pub mod Measures
pub mod Steps
pub mod Sessions
use cpcluster.Prelude.{
  ℕ, suc, ◌+◌, ◌≤◌, String, Bool, true, false, Option, none, some, [], ◌∷◌, ◌==◌, count,
  if◌then◌else◌,
}
use cpcluster.Prelude.Dict
use cpcluster.Prelude.Dict.{Dict}
use cpcluster.Prelude.Dict.Table.{IsTable}
use cpcluster.Master.State.{NodeInfo, MasterNode}

abbrev pub one : Bool → ℕ
one true = 1
one false = 0

abbrev pub has_port : ℕ → Option ℕ → Bool
has_port p none = false
has_port p (some q) = q == p

-- How many nodes hold the port `p`.
unfoldable pub held : ℕ → Dict NodeInfo → ℕ
held p [] = 0
held p ((addr, n) ∷ nodes) = one (has_port p n.port) + held p nodes

-- At how many nodes the task `id` is active.
unfoldable pub runs : String → Dict NodeInfo → ℕ
runs id [] = 0
runs id ((addr, n) ∷ nodes) = one (Dict.contains_key id n.active_tasks) + runs id nodes

pub record IsSound (m : MasterNode) : Type 0 where
  pub ports : (p : ℕ) → count p m.available_ports + held p m.connected_nodes ≤ 1
  pub once : (id : String) → runs id m.connected_nodes ≤ 1
  pub nodes : IsTable m.connected_nodes
  pub pending : IsTable m.pending_tasks

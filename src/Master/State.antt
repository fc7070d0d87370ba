-- ===== src/Master/State.antt =====
-- CPCluster_masterNode/src/state.rs. A `MasterNode` stands for what its mutexes hold between two
-- critical sections; JSON is a parameter.
pub mod Persist
use cpcluster.Prelude.{ℕ, suc, String, Bool, Option, none, some, List}
use cpcluster.Prelude.Dict.{Dict}
use cpcluster.Prelude.Files.{Files, read, write}
use cpcluster.Common.Protocol.{NodeRole, Task, TaskResult}

pub record PendingTask : Type 0 where
  pub task : Task
  pub target : Option String

pub record NodeInfo : Type 0 where
  pub addr : String
  pub last_heartbeat : ℕ
  pub port : Option ℕ
  pub active_tasks : Dict Task
  pub is_worker : Bool
  pub role : NodeRole

-- `spawned_saves` counts the tasks that `spawn_save_state` started and that have not run yet.
pub record MasterNode : Type 0 where
  pub connected_nodes : Dict NodeInfo
  pub available_ports : List ℕ
  pub failover_timeout_ms : ℕ
  pub pending_tasks : Dict PendingTask
  pub completed_tasks : Dict TaskResult
  pub state_file : String
  pub spawned_saves : ℕ

pub record MasterState : Type 0 where
  pub connected_nodes : Dict NodeInfo
  pub available_ports : List ℕ
  pub pending_tasks : Dict PendingTask
  pub completed_tasks : Dict TaskResult

-- serde_json, at this type: both directions may fail.
pub record Format : Type 0 where
  pub to_string_pretty : MasterState → Option String
  pub from_str : String → Option MasterState

-- What `save_state` collects under the locks.
abbrev pub snapshot : MasterNode → MasterState
snapshot m = record {
  connected_nodes = m.connected_nodes;
  available_ports = m.available_ports;
  pending_tasks = m.pending_tasks;
  completed_tasks = m.completed_tasks;
}

-- The four assignments of `load_state`.
abbrev pub restore : MasterState → MasterNode → MasterNode
restore state m = record m {
  connected_nodes = state.connected_nodes;
  available_ports = state.available_ports;
  pending_tasks = state.pending_tasks;
  completed_tasks = state.completed_tasks;
}

module _ (json : Format) where
  -- A file that is missing or that does not parse changes nothing.
  unfoldable pub load_state : Files String → MasterNode → MasterNode
  load_state files m = elim (read m.state_file files) [
    | none ↦ m
    | some text ↦ elim (json.from_str text) [ none ↦ m | some state ↦ restore state m ]
  ]

  -- A failed write is ignored.
  unfoldable pub save_state : MasterNode → Files String → Files String
  save_state m files = elim (json.to_string_pretty (snapshot m)) [
    | none ↦ files
    | some text ↦ (write m.state_file text files).1
  ]

unfoldable pub spawn_save_state : MasterNode → MasterNode
spawn_save_state m = record m { spawned_saves = suc m.spawned_saves }

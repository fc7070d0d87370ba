-- ===== src/Master/Merge.antt =====
-- CPCluster_masterNode/src/lib.rs: `PeerState`, `collect_state` and `merge_state`.
pub mod Adopt
use cpcluster.Prelude.{[], ◌∷◌}
use cpcluster.Prelude.Dict
use cpcluster.Prelude.Dict.{Dict}
use cpcluster.Common.Protocol.{TaskResult}
use cpcluster.Master.State.{NodeInfo, PendingTask, MasterNode, spawn_save_state}

pub record PeerState : Type 0 where
  pub connected_nodes : Dict NodeInfo
  pub pending_tasks : Dict PendingTask
  pub completed_tasks : Dict TaskResult

unfoldable pub collect_state : MasterNode → PeerState
collect_state m = record {
  connected_nodes = m.connected_nodes;
  pending_tasks = m.pending_tasks;
  completed_tasks = m.completed_tasks;
}

-- `for (k, v) in theirs { ours.entry(k).or_insert(v); }`
unfoldable pub adopt {ℓ} : {V : Type ℓ} → Dict V → Dict V → Dict V
adopt [] ours = ours
adopt ((k, v) ∷ theirs) ours = adopt theirs (Dict.or_insert k v ours)

unfoldable pub merge_state : PeerState → MasterNode → MasterNode
unfolding spawn_save_state
merge_state state m = spawn_save_state (record m {
  connected_nodes = adopt state.connected_nodes m.connected_nodes;
  pending_tasks = adopt state.pending_tasks m.pending_tasks;
  completed_tasks = adopt state.completed_tasks m.completed_tasks;
})

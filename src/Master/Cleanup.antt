-- ===== src/Master/Cleanup.antt =====
-- CPCluster_masterNode/src/lib.rs: `cleanup_dead_nodes`.
pub mod Requeue
pub mod Tasks
pub mod Leak
use cpcluster.Prelude.{
  ℕ, ◌-◌, ◌*◌, ◌%◌, ◌^◌, String, Bool, Option, none, some, List, [], ◌∷◌, ltb, if◌then◌else◌,
}
use cpcluster.Prelude.Dict
use cpcluster.Prelude.Dict.{Dict}
use cpcluster.Common.Protocol.{Task}
use cpcluster.Master.State.{NodeInfo, PendingTask, MasterNode, spawn_save_state}
use cpcluster.Master.Ports.{release_port}

-- `failover_timeout_ms * 2` on `u64`, as a release build computes it.
abbrev pub timeout_of : MasterNode → ℕ
timeout_of m = m.failover_timeout_ms * 2 % 2 ^ 64

-- `now.saturating_sub(info.last_heartbeat) > timeout`
abbrev pub is_stale : ℕ → ℕ → NodeInfo → Bool
is_stale timeout now info = ltb timeout (now - info.last_heartbeat)

unfoldable pub stale_nodes : ℕ → ℕ → Dict NodeInfo → List String
stale_nodes timeout now [] = []
stale_nodes timeout now ((addr, info) ∷ nodes) =
    let rest = stale_nodes timeout now nodes in
    if is_stale timeout now info then addr ∷ rest else rest

-- `for (id, task) in active { pending.insert(id, PendingTask { task, target: None }) }`
unfoldable pub requeue : Dict Task → Dict PendingTask → Dict PendingTask
requeue [] pending = pending
requeue ((id, task) ∷ active) pending =
    requeue active (Dict.insert id (record { task = task; target = none }) pending)

abbrev pub requeue_tasks_of : Option NodeInfo → Dict PendingTask → Dict PendingTask
requeue_tasks_of none pending = pending
requeue_tasks_of (some info) pending = requeue info.active_tasks pending

-- The body of the second loop: the node goes, its tasks are pending again, and its port is released.
unfoldable pub remove_dead : String → MasterNode → MasterNode
remove_dead addr m = release_port addr (record m {
  connected_nodes = Dict.remove addr m.connected_nodes;
  pending_tasks = requeue_tasks_of (Dict.get addr m.connected_nodes) m.pending_tasks;
})

unfoldable pub remove_all_dead : List String → MasterNode → MasterNode
remove_all_dead [] m = m
remove_all_dead (addr ∷ stale) m = remove_all_dead stale (remove_dead addr m)

unfoldable pub cleanup_dead_nodes : ℕ → MasterNode → MasterNode
unfolding spawn_save_state
cleanup_dead_nodes now m =
    spawn_save_state (remove_all_dead (stale_nodes (timeout_of m) now m.connected_nodes) m)

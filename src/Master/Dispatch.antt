-- ===== src/Master/Dispatch.antt =====
-- CPCluster_masterNode/src/lib.rs: `role_for_task` and `send_pending_tasks`.
pub mod Loop
pub mod Keeps
pub mod Sent
pub mod Progress
use cpcluster.Prelude.{
  ℕ, zero, suc, String, Bool, true, ◌&&◌, not, Option, none, some, ok, out_of_fuel, find, length,
  str_eq,
}
use cpcluster.Prelude.Action.{Action, ◌>>=◌, ◌>>◌, pure}
use cpcluster.Prelude.Dict
use cpcluster.Prelude.Dict.{Dict}
use cpcluster.Common.Protocol.{
  NodeRole, worker, disk, internet, role_eq, Task, get_storage, disk_write, disk_read, tcp, udp,
  assign_task,
}
use cpcluster.Common.Wire.{Wire}
use cpcluster.Master.State.{NodeInfo, PendingTask, MasterNode}
use cpcluster.Master.Connection.{Connection, locked, modify, on_error, fail, send}

unfoldable pub role_for_task : Task → NodeRole
role_for_task get_storage = disk
role_for_task (disk_write _ _) = disk
role_for_task (disk_read _) = disk
role_for_task (tcp _ _) = internet
role_for_task (udp _ _) = internet
role_for_task _ = worker

-- `p.target.as_deref().map(|t| t == addr).unwrap_or(true)`
abbrev pub is_for : String → Option String → Bool
is_for addr none = true
is_for addr (some t) = str_eq t addr

-- `nodes.values().any(|n| n.active_tasks.contains_key(id))`
abbrev pub is_active : String → Dict NodeInfo → Bool
is_active id = Dict.any_value (λ n. Dict.contains_key id n.active_tasks)

unfoldable pub is_eligible : String → NodeRole → Dict NodeInfo → String × PendingTask → Bool
is_eligible addr role nodes (id, p) =
    is_for addr p.target && role_eq (role_for_task p.task) role && not (is_active id nodes)

-- The search of the loop, under both locks.
abbrev pub eligible_task : String → NodeRole → MasterNode → Option (String × PendingTask)
eligible_task addr role m = find (is_eligible addr role m.connected_nodes) m.pending_tasks

abbrev pub without_pending : Option (String × PendingTask) → Dict PendingTask → Dict PendingTask
without_pending none pending = pending
without_pending (some (id, _)) pending = Dict.remove id pending

-- The first critical section: the task that was found is taken out of the table.
unfoldable pub take_next :
    String → NodeRole → MasterNode → Option (String × PendingTask) × MasterNode
take_next addr role m = (
  eligible_task addr role m,
  record m { pending_tasks = without_pending (eligible_task addr role m) m.pending_tasks },
)

abbrev pub add_active : String → Task → NodeInfo → NodeInfo
add_active id task n = record n { active_tasks = Dict.insert id task n.active_tasks }

abbrev pub remove_active : String → NodeInfo → NodeInfo
remove_active id n = record n { active_tasks = Dict.remove id n.active_tasks }

unfoldable pub assign : String → String → Task → MasterNode → MasterNode
assign addr id task m = record m {
  connected_nodes = Dict.and_modify addr (add_active id task) m.connected_nodes;
}

-- After a failed write the task is pending again and no longer active at the node.
unfoldable pub unassign : String → String → PendingTask → MasterNode → MasterNode
unassign addr id ptask m = record m {
  pending_tasks = Dict.insert id ptask m.pending_tasks;
  connected_nodes = Dict.and_modify addr (remove_active id) m.connected_nodes;
}

-- `Some(node) if node.is_worker => node.role.clone()`
abbrev pub worker_role : Option NodeInfo → Option NodeRole
worker_role none = none
worker_role (some n) = elim n.is_worker [ true ↦ some n.role | _ ↦ none ]

-- A round for each pending task, and one to find that none is left.
abbrev pub enough_fuel : MasterNode → ℕ
enough_fuel m = suc (length m.pending_tasks)

module _ (wire : Wire) where
  -- The loop. Each round takes one task out of the table of pending tasks.
  unfoldable pub send_loop : ℕ → String → NodeRole → Action Connection (Unit {0})
  send_loop zero addr role = fail out_of_fuel
  send_loop (suc fuel) addr role = do
    next ← locked (take_next addr role)
    elim next [
      | none ↦ pure tt
      | some (id, ptask) ↦ do
        modify (assign addr id ptask.task)
        on_error (unassign addr id ptask) (send (wire.to_vec (assign_task id ptask.task)))
        send_loop fuel addr role
    ]

  unfoldable pub send_pending_tasks : String → Action Connection (Unit {0})
  unfolding send_loop
  send_pending_tasks addr c = elim (worker_role (Dict.get addr c.master.connected_nodes)) [
    | none ↦ (ok tt, c)
    | some role ↦ send_loop (enough_fuel c.master) addr role c
  ]

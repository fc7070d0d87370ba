-- ===== src/Master/Shell.antt =====
-- CPCluster_masterNode/src/shell.rs: what the commands of the shell read and change. What the rest of
-- the master does between two looks at its tables is an argument.
pub mod Waiting
pub mod Command
pub mod Run
pub mod Keeps
pub mod Lines
pub mod Addtask
use cpcluster.Prelude.{
  ℕ, ◌-◌, ◌*◌, String, Bool, true, false, ◌&&◌, Option, none, some, List, [], ◌∷◌, leb, str_eq,
  if◌then◌else◌,
}
use cpcluster.Prelude.Dict
use cpcluster.Prelude.Dict.{Dict}
use cpcluster.Common.Protocol.{NodeRole, role_eq, Task, compute, http_request, TaskResult}
use cpcluster.Master.State.{PendingTask, NodeInfo, MasterNode}
use cpcluster.Master.Cleanup.{timeout_of}

-- The insertion of `submit_task_for_node`.
unfoldable pub submit_for : String → String → Task → MasterNode → MasterNode
submit_for id target task m = record m {
  pending_tasks = Dict.insert id (record { task = task; target = some target }) m.pending_tasks;
}

-- `completed_tasks.remove(&id)`
unfoldable pub take_result : String → MasterNode → Option TaskResult × MasterNode
take_result id m =
    (Dict.get id m.completed_tasks, record m { completed_tasks = Dict.remove id m.completed_tasks })

-- After the timeout.
unfoldable pub give_up : String → MasterNode → MasterNode
give_up id m = record m { pending_tasks = Dict.remove id m.pending_tasks }

-- What others do before the next lock that is taken, if they do anything.
abbrev pub meanwhile : List (MasterNode → MasterNode) → MasterNode → MasterNode
meanwhile [] m = m
meanwhile (next ∷ _) m = next m

-- The loop under `timeout`: before each further look, the master changes; after the last, the time is
-- up. A result that is found is removed, and then `save_state` waits for the completed tasks, whose
-- guard the `if let` holds over its body: only the end of the time ends that, and the result is gone.
unfoldable pub wait_result :
    String → List (MasterNode → MasterNode) → MasterNode → Option TaskResult × MasterNode
wait_result id [] m = (none, give_up id m)
wait_result id (next ∷ changes) m =
    let later = wait_result id changes (next m) in
    elim (take_result id m).0 [
      | some result ↦ (none, give_up id (meanwhile changes (take_result id m).1))
      | none ↦ later
    ]

unfoldable pub submit_task_for_node :
    String
    → String
    → Task
    → List (MasterNode → MasterNode)
    → MasterNode
    → Option TaskResult × MasterNode
submit_task_for_node id target task changes m = wait_result id changes (submit_for id target task m)

-- `addtask`: the task is for any node.
unfoldable pub add_task : String → Task → MasterNode → MasterNode
add_task id task m = record m {
  pending_tasks = Dict.insert id (record { task = task; target = none }) m.pending_tasks;
}

-- The type of `addtask`.
abbrev pub task_of : String → String → Option Task
task_of kind arg =
    if str_eq kind "compute"
    then some (compute arg)
    else if str_eq kind "http"
    then some (http_request arg)
    else none

-- Whether some node has the task.
abbrev pub is_running_in : String → MasterNode → Bool
is_running_in id m = Dict.any_value (λ n. Dict.contains_key id n.active_tasks) m.connected_nodes

-- The nodes that `getglobalram` and `getstorage` ask.
unfoldable pub is_ready : NodeRole → ℕ → MasterNode → NodeInfo → Bool
is_ready role now m n = role_eq n.role role && leb (now - n.last_heartbeat) (timeout_of m)

unfoldable pub ready_nodes : NodeRole → ℕ → MasterNode → Dict NodeInfo → List String
ready_nodes role now m [] = []
ready_nodes role now m ((k, n) ∷ nodes) =
    let rest = ready_nodes role now m nodes in if is_ready role now m n then n.addr ∷ rest else rest

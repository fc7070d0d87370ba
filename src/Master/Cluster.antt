-- ===== src/Master/Cluster.antt =====
-- The whole master: the handlers of all connections, the removal of dead nodes and the shell, in any
-- order. A step is one handler of CPCluster_masterNode/src/lib.rs or one command of shell.rs.
pub mod Reachable
pub mod Sessions
pub mod Kept
pub mod Known
pub mod Handled
pub mod Lost
pub mod Commands
use cpcluster.Prelude.{ℕ, String}
use cpcluster.Common.Protocol.{NodeMessage, Task}
use cpcluster.Common.Wire.{Wire, Socket}
use cpcluster.Master.State.{MasterNode}
use cpcluster.Master.Connection.{Connection}
use cpcluster.Master.Dispatch.{send_pending_tasks}
use cpcluster.Master.Cleanup.{cleanup_dead_nodes}
use cpcluster.Master.Session.{accept_node, remove_node, handle_message}
use cpcluster.Master.Shell.{submit_for, add_task, take_result, give_up}

module _ (wire : Wire) where
  abbrev pub with_socket : MasterNode → Socket → Connection
  with_socket m socket = record { master = m; socket = socket }

  pub data Step : MasterNode → MasterNode → Type 0 where
    accepts : (addr : String) (now : ℕ) (m : MasterNode) → Step m (accept_node addr now m)
    handles :
        (addr : String) (now : ℕ) (msg : NodeMessage) (m : MasterNode) (socket : Socket)
        → Step m (handle_message wire addr now msg (with_socket m socket)).1.master
    dispatches :
        (addr : String) (m : MasterNode) (socket : Socket)
        → Step m (send_pending_tasks wire addr (with_socket m socket)).1.master
    leaves : (addr : String) (m : MasterNode) → Step m (remove_node addr m)
    cleans : (now : ℕ) (m : MasterNode) → Step m (cleanup_dead_nodes now m)
    shell_submits :
        (id target : String) (task : Task) (m : MasterNode) → Step m (submit_for id target task m)
    shell_adds : (id : String) (task : Task) (m : MasterNode) → Step m (add_task id task m)
    shell_takes : (id : String) (m : MasterNode) → Step m (take_result id m).1
    shell_gives_up : (id : String) (m : MasterNode) → Step m (give_up id m)

  -- Any number of steps.
  pub data Steps : MasterNode → MasterNode → Type 0 where
    stay : (m : MasterNode) → Steps m m
    onward : {a b c : MasterNode} → Step a b → Steps b c → Steps a c

-- ===== src/Master/Sections.antt =====
-- The master between two locks. A handler of CPCluster_masterNode/src/lib.rs takes one mutex after the
-- other; a section is what happens under one of them, and the sections of different tasks come in any
-- order; the search of `send_pending_tasks` is under two. What a task has in hand between two sections is a part of the state.
pub mod Ports
pub mod Race
use cpcluster.Prelude.{ℕ, String, Bool, true, false, Option, none, some, List, [], ◌∷◌, ◌++◌, ◌≡◌}
use cpcluster.Prelude.Dict
use cpcluster.Prelude.Dict.{Dict, get}
use cpcluster.Common.Protocol.{NodeRole, Task, TaskResult}
use cpcluster.Master.State.{NodeInfo, PendingTask, MasterNode, spawn_save_state}
use cpcluster.Master.Ports.{port_of, without_port}
use cpcluster.Master.Dispatch.{eligible_task, take_next, assign, remove_active, worker_role}
use cpcluster.Master.Cleanup.{requeue, stale_nodes, timeout_of}
use cpcluster.Master.Session.{new_node, set_role, set_port, beat, modify_node}

-- A task that `send_pending_tasks` has taken, for the node `addr`.
pub record Flight : Type 0 where
  pub addr : String
  pub id : String
  pub pending : PendingTask

-- `ports` are those that `allocate_port` has popped or `release_port` has taken from a node; `orphans`
-- the tasks of removed nodes that are not queued again yet; `dispatching` the connections inside the
-- loop of `send_pending_tasks`, with the role that each has looked up before it; `dead` what
-- `cleanup_dead_nodes` has found stale and not removed yet; `taken` the tasks before they are assigned,
-- `assigned` those that are being written, and `failed` those that were put back after a failed write.
pub record Between : Type 0 where
  pub master : MasterNode
  pub ports : List ℕ
  pub orphans : List (Dict Task)
  pub dispatching : List (String × NodeRole)
  pub dead : List String
  pub taken : List Flight
  pub assigned : List Flight
  pub failed : List Flight

-- `info.port.take()` hands the port over.
abbrev pub hand : Option ℕ → List ℕ → List ℕ
hand none ports = ports
hand (some p) ports = p ∷ ports

abbrev pub hand_tasks : Option NodeInfo → List (Dict Task) → List (Dict Task)
hand_tasks none orphans = orphans
hand_tasks (some info) orphans = info.active_tasks ∷ orphans

abbrev pub with_nodes : (Dict NodeInfo → Dict NodeInfo) → Between → Between
with_nodes f b = record b {
  master = record b.master { connected_nodes = f b.master.connected_nodes };
}

abbrev pub with_pending : (Dict PendingTask → Dict PendingTask) → Between → Between
with_pending f b = record b {
  master = record b.master { pending_tasks = f b.master.pending_tasks };
}

abbrev pub with_completed : (Dict TaskResult → Dict TaskResult) → Between → Between
with_completed f b = record b {
  master = record b.master { completed_tasks = f b.master.completed_tasks };
}

abbrev pub with_ports : List ℕ → Between → Between
with_ports ports b = record b { master = record b.master { available_ports = ports } }

pub data Section : Between → Between → Type 0 where
  -- `spawn_save_state`
  saves : (b : Between) → Section b (record b { master = spawn_save_state b.master })
  -- A client is entered, says its role, or sends a heartbeat.
  enters :
      (addr : String) (now : ℕ) (b : Between)
      → Section b (with_nodes (Dict.insert addr (new_node addr now)) b)
  registers :
      (addr : String) (role : NodeRole) (b : Between)
      → Section b (with_nodes (Dict.and_modify addr (set_role role)) b)
  beats :
      (addr : String) (now : ℕ) (b : Between)
      → Section b (with_nodes (Dict.and_modify addr (beat now)) b)
  -- `allocate_port`, and the assignment of the port to the node.
  pops :
      (p : ℕ) (rest : List ℕ) (b : Between)
      → b.master.available_ports ≡ p ∷ rest
      → Section b (record (with_ports rest b) { ports = p ∷ b.ports })
  records :
      (addr : String) (p : ℕ) (before after : List ℕ) (b : Between)
      → b.ports ≡ before ++ p ∷ after
      → Section b
          (record (with_nodes (Dict.and_modify addr (set_port p)) b) { ports = before ++ after })
  -- The two locks of `release_port`.
  takes_port :
      (addr : String) (b : Between)
      → Section b (record (with_nodes (Dict.and_modify addr without_port) b) {
        ports = hand (port_of (get addr b.master.connected_nodes)) b.ports;
      })
  gives_back :
      (p : ℕ) (before after : List ℕ) (b : Between)
      → b.ports ≡ before ++ p ∷ after
      → Section b
          (record (with_ports (b.master.available_ports ++ p ∷ []) b) { ports = before ++ after })
  -- A connection that ends, and the three locks of `cleanup_dead_nodes` for a dead node.
  leaves : (addr : String) (b : Between) → Section b (with_nodes (Dict.remove addr) b)
  finds_dead :
      (now : ℕ) (b : Between)
      → Section b (record b {
        dead = stale_nodes (timeout_of b.master) now b.master.connected_nodes ++ b.dead;
      })
  removes_dead :
      (addr : String) (before after : List String) (b : Between)
      → b.dead ≡ before ++ addr ∷ after
      → Section b (record (with_nodes (Dict.remove addr) b) {
        dead = before ++ after;
        orphans = hand_tasks (get addr b.master.connected_nodes) b.orphans;
      })
  requeues :
      (tasks : Dict Task) (before after : List (Dict Task)) (b : Between)
      → b.orphans ≡ before ++ tasks ∷ after
      → Section b (record (with_pending (requeue tasks) b) { orphans = before ++ after })
  -- `SubmitTask`, `addtask` and the tasks of the shell; the shell gives up.
  submits :
      (id : String) (p : PendingTask) (b : Between) → Section b (with_pending (Dict.insert id p) b)
  gives_up : (id : String) (b : Between) → Section b (with_pending (Dict.remove id) b)
  -- `send_pending_tasks`: the role of a worker is looked up; in its loop a task is taken (under two
  -- mutexes at once), assigned, and written, or put back after a failed write; and the loop ends.
  looks_up :
      (addr : String) (role : NodeRole) (b : Between)
      → worker_role (get addr b.master.connected_nodes) ≡ some role
      → Section b (record b { dispatching = (addr, role) ∷ b.dispatching })
  stops :
      (d : String × NodeRole) (before after : List (String × NodeRole)) (b : Between)
      → b.dispatching ≡ before ++ d ∷ after
      → Section b (record b { dispatching = before ++ after })
  takes :
      (addr id : String) (role : NodeRole) (p : PendingTask)
      (before after : List (String × NodeRole)) (b : Between)
      → b.dispatching ≡ before ++ (addr, role) ∷ after
      → eligible_task addr role b.master ≡ some (id, p)
      → Section b (record b {
        master = (take_next addr role b.master).1;
        taken = record { addr = addr; id = id; pending = p } ∷ b.taken;
      })
  assigns :
      (f : Flight) (before after : List Flight) (b : Between)
      → b.taken ≡ before ++ f ∷ after
      → Section b (record b {
        master = assign f.addr f.id f.pending.task b.master;
        taken = before ++ after;
        assigned = f ∷ b.assigned;
      })
  delivers :
      (f : Flight) (before after : List Flight) (b : Between)
      → b.assigned ≡ before ++ f ∷ after
      → Section b (record b { assigned = before ++ after })
  puts_back :
      (f : Flight) (before after : List Flight) (b : Between)
      → b.assigned ≡ before ++ f ∷ after
      → Section b (record (with_pending (Dict.insert f.id f.pending) b) {
        assigned = before ++ after;
        failed = f ∷ b.failed;
      })
  unassigns :
      (f : Flight) (before after : List Flight) (b : Between)
      → b.failed ≡ before ++ f ∷ after
      → Section b (record (with_nodes (Dict.and_modify f.addr (remove_active f.id)) b) {
        failed = before ++ after;
      })
  -- The three locks of `TaskResult`, and the shell that fetches a result.
  ends_active :
      (addr id : String) (b : Between)
      → Section b (with_nodes (Dict.and_modify addr (remove_active id)) b)
  ends_pending : (id : String) (b : Between) → Section b (with_pending (Dict.remove id) b)
  completes :
      (id : String) (result : TaskResult) (b : Between)
      → Section b (with_completed (Dict.insert id result) b)
  fetches : (id : String) (b : Between) → Section b (with_completed (Dict.remove id) b)

-- No task has anything in hand.
abbrev pub at_rest : MasterNode → Between
at_rest m = record {
  master = m;
  ports = [];
  orphans = [];
  dispatching = [];
  dead = [];
  taken = [];
  assigned = [];
  failed = [];
}

pub data Sections : Between → Between → Type 0 where
  stay : (b : Between) → Sections b b
  onward : {a b c : Between} → Section a b → Sections b c → Sections a c

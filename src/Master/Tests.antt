-- ===== src/Master/Tests.antt =====
-- Runs of the master's definitions, and its theorems at concrete inputs.
mod Cluster
mod Sessions
mod Shell
mod Start
mod Locks
mod Sections
use cpcluster.Prelude.{
  ℕ, ◌+◌, ◌≡◌, ◌≢◌, ◌⊎◌, inr, refl, String, true, false, Option, none, some, List, [], ◌∷◌, arith,
  ok, err, out_of_fuel, if◌then◌else◌, ◌==◌, eq_iff, count,
}
use cpcluster.Prelude.Dict
use cpcluster.Prelude.Dict.{Dict, get, contains_key}
use cpcluster.Prelude.Files.{Files}
use cpcluster.Prelude.Text.{trim}
use cpcluster.Common.Protocol.{
  Bytes, invalid_token, NodeRole, worker, disk, Task, compute, get_storage, number, NodeMessage,
  heartbeat, heartbeat_ack, disconnect, get_task_result, task_result, assign_task, submit_task,
}
use cpcluster.Common.Wire.{Wire, Socket, send_frame}
use cpcluster.Master.State.{
  NodeInfo, PendingTask, MasterNode, Format, snapshot, load_state, save_state, spawn_save_state,
}
use cpcluster.Master.State.Persist.{load_state-save_state}
use cpcluster.Master.Connection.{Connection, send}
use cpcluster.Master.Ports.{allocate_port, release_port}
use cpcluster.Master.Merge.{PeerState, collect_state, adopt, merge_state}
use cpcluster.Master.Merge.Adopt.{or_else, get-merge_state}
use cpcluster.Master.Dispatch.{
  is_eligible, role_for_task, take_next, assign, unassign, send_loop, eligible_task, worker_role,
  send_pending_tasks,
}
use cpcluster.Master.Dispatch.Loop.{send_pending_tasks_ends, send_pending_tasks_drains}
use cpcluster.Master.Dispatch.Keeps.{Keeps, send_pending_tasks-Keeps}
use cpcluster.Master.Dispatch.Sent.{Sends, send_pending_tasks-Sends}
use cpcluster.Master.Cleanup.{
  timeout_of, stale_nodes, requeue, remove_dead, remove_all_dead, cleanup_dead_nodes,
}
use cpcluster.Master.Cleanup.Tasks.{queued_again, OnlyAt, cleanup_dead_nodes_requeues}
use cpcluster.Master.Cleanup.Requeue.{stale_opt, get-cleanup_dead_nodes}
use cpcluster.Master.Cleanup.Leak.{cleanup_dead_nodes_loses_port}
use cpcluster.Master.Session.{
  Arrival, PeerFormat, go_on, stop, accept_node, remove_node, modify_node, submit, complete,
  announce, connect_nodes, handle_message, serve, serve_rest, serve_client, handle_peer_connection,
  sync_with_peer, authenticate, handle_connection,
}
use cpcluster.Master.Session.PeerSync.{Agree, sync-Agree}
use cpcluster.Master.Session.Leave.{disconnect_releases_port, broken_connection_loses}
use cpcluster.Master.Session.Results.{
  poll_after_result, result_after, get-completed-handle_message, handle_connection_refuses,
}
use cpcluster.Master.Invariant.{held, runs, IsSound}
use cpcluster.Master.Invariant.Sessions.{serve_client-IsSound, cleanup_dead_nodes-IsSound}
use cpcluster.Master.Dispatch.{is_active}

-- A wire format with a tag for the messages that the runs use.
abbrev pub encode : NodeMessage → Bytes
encode heartbeat_ack = 1 ∷ []
encode (assign_task id task) = 2 ∷ []
encode (task_result id result) = 3 ∷ []
encode _ = 0 ∷ []

abbrev pub first_byte : Bytes → ℕ
first_byte [] = 0
first_byte (b ∷ _) = b

abbrev pub decode : Bytes → Option NodeMessage
decode b =
    if first_byte b == 7
    then some heartbeat
    else if first_byte b == 8
    then some disconnect
    else if first_byte b == 9
    then some (submit_task "t9" (compute "2*3"))
    else none

abbrev pub wire : Wire
wire = record { to_vec = encode; from_slice = decode; from_utf8 = λ b. some "secret" }

abbrev pub sums : Task
sums = compute "1+1"

abbrev pub worker_node : NodeInfo
worker_node = record {
  addr = "w1";
  last_heartbeat = 1000;
  port = some 55001;
  active_tasks = ("t1", sums) ∷ [];
  is_worker = true;
  role = worker;
}

abbrev pub disk_node : NodeInfo
disk_node = record {
  addr = "d1";
  last_heartbeat = 90000;
  port = none;
  active_tasks = [];
  is_worker = true;
  role = disk;
}

abbrev pub for_any : Task → PendingTask
for_any task = record { task = task; target = none }

-- A worker that runs a task, a disk node, and two tasks that wait.
abbrev pub busy : MasterNode
busy = record {
  connected_nodes = ("w1", worker_node) ∷ ("d1", disk_node) ∷ [];
  available_ports = 55002 ∷ 55003 ∷ [];
  failover_timeout_ms = 5000;
  pending_tasks = ("t2", for_any sums) ∷ ("t3", for_any get_storage) ∷ [];
  completed_tasks = [];
  state_file = "master_state.json";
  spawned_saves = 0;
}

abbrev pub open_socket : Socket
open_socket = record { sent = []; room = 9 }

abbrev pub at_busy : Connection
at_busy = record { master = busy; socket = open_socket }

unfoldable pub definitions : Unit {0}
unfolding Dict.get Dict.insert Dict.remove Dict.and_modify Dict.or_insert is_eligible role_for_task
    take_next assign unassign send_loop send_pending_tasks send send_frame allocate_port
    release_port stale_nodes requeue remove_dead remove_all_dead cleanup_dead_nodes spawn_save_state
    accept_node remove_node modify_node submit complete announce connect_nodes handle_message serve
    serve_rest serve_client collect_state adopt merge_state load_state save_state
    handle_peer_connection sync_with_peer trim authenticate handle_connection
definitions = tt

-- The worker takes `t2` and leaves the storage task to the disk node.
dispatched :
    let after = send_pending_tasks wire "w1" at_busy in
    (after.0 ≡ ok tt)
    × (after.1.socket.sent ≡ (2 ∷ []) ∷ [])
    × (after.1.master.pending_tasks ≡ ("t3", for_any get_storage) ∷ [])
unfolding definitions
dispatched = (refl, refl, refl)

-- A first write that fails leaves the task pending.
write_fails :
    let after =
      send_pending_tasks wire "w1"
        (record { master = busy; socket = record { sent = []; room = 0 } }) in
    get "t2" after.1.master.pending_tasks ≡ some (for_any sums)
unfolding definitions
write_fails = refl

-- A client that registers by a heartbeat, submits and leaves.
session :
    let after =
      handle_connection wire
        (record { to_vec = λ s. []; from_slice = λ b. none })
        "secret"
        "c1"
        (record { payload = []; now = 5 }
          ∷ record { payload = 7 ∷ []; now = 6 }
          ∷ record { payload = 9 ∷ []; now = 7 }
          ∷ record { payload = 8 ∷ []; now = 8 }
          ∷ [])
        at_busy in
    (after.0 ≡ ok tt) × (get "c1" after.1.master.connected_nodes ≡ none)
unfolding definitions
session = (refl, refl)

pub busy-IsSound : IsSound busy
unfolding held runs Dict.get
busy-IsSound = record {
  ports = λ p. ground arith;
  once = λ id. ground arith;
  nodes = (ground arith, (refl, tt));
  pending = (ground arith, (refl, tt));
}

send_pending_tasks_ends_example : (send_pending_tasks wire "w1" at_busy).0 ≢ err out_of_fuel
send_pending_tasks_ends_example = send_pending_tasks_ends wire "w1" at_busy

send_pending_tasks_drains_example :
    eligible_task "w1" worker (send_pending_tasks wire "w1" at_busy).1.master ≡ none
unfolding definitions
send_pending_tasks_drains_example = send_pending_tasks_drains wire "w1" at_busy worker refl refl

send_pending_tasks-Keeps_example :
    Keeps "w1" "t2" (for_any sums) (send_pending_tasks wire "w1" at_busy).1.master
unfolding Dict.get
send_pending_tasks-Keeps_example =
    send_pending_tasks-Keeps wire "w1" at_busy worker_node "t2" (for_any sums) busy-IsSound.pending
      refl refl

send_pending_tasks-Sends_example :
    ((worker_role (get "w1" busy.connected_nodes) ≡ none)
      × (send_pending_tasks wire "w1" at_busy ≡ (ok tt, at_busy)))
    ⊎ ((role : NodeRole) × (worker_role (get "w1" busy.connected_nodes) ≡ some role)
        × Sends wire "w1" role at_busy (send_pending_tasks wire "w1" at_busy).1)
send_pending_tasks-Sends_example = send_pending_tasks-Sends wire "w1" at_busy busy-IsSound.pending

only_worker : OnlyAt "w1" "t1" busy
unfolding Dict.get
only_worker other n ne h = ground (arith, h, ne, eq_iff "w1" other)

cleanup_dead_nodes_requeues_example :
    Dict.get "t1" (cleanup_dead_nodes 92000 busy).pending_tasks ≡ some (queued_again sums)
unfolding Dict.get
cleanup_dead_nodes_requeues_example =
    cleanup_dead_nodes_requeues 92000 busy "w1" "t1" worker_node sums busy-IsSound.nodes refl refl
      (refl, tt) refl only_worker

cleanup_dead_nodes_loses_port_example :
    count 55001 (cleanup_dead_nodes 92000 busy).available_ports
      + held 55001 (cleanup_dead_nodes 92000 busy).connected_nodes
    ≡ 0
unfolding Dict.get
cleanup_dead_nodes_loses_port_example =
    cleanup_dead_nodes_loses_port 92000 busy "w1" worker_node 55001 busy-IsSound refl refl refl

abbrev pub beats : List Arrival
beats = record { payload = 7 ∷ []; now = 6 } ∷ record { payload = 9 ∷ []; now = 7 } ∷ []

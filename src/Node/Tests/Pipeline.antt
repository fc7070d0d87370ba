-- ===== src/Node/Tests/Pipeline.antt =====
-- The way of a task through the programs, at a concrete input.
use cpcluster.Prelude.{◌≡◌, refl, true, none, some, [], ◌∷◌, arith}
use cpcluster.Prelude.Dict.{get, insert}
use cpcluster.Common.Protocol.{
  Bytes, disk, get_storage, response, TaskResult, NodeMessage, assign_task, task_result,
  get_task_result, heartbeat_ack,
}
use cpcluster.Common.Config.{default}
use cpcluster.Common.Wire.{Wire, Socket, send_frame}
use cpcluster.Master.State.{NodeInfo, MasterNode, spawn_save_state}
use cpcluster.Master.Connection.{Connection, send}
use cpcluster.Master.Dispatch.{role_for_task}
use cpcluster.Master.Session.{handle_message, submit}
use cpcluster.Node.Loop.{Setting, NodeState, on_event, readable}
use cpcluster.Node.Tests.Tasks.{environment, worker_a, running}
use cpcluster.Pipeline.{submitted, after_beat, submitted_task_is_answered}
use cpcluster.Master.Dispatch.Progress.{Has}

abbrev encode : NodeMessage → Bytes
encode heartbeat_ack = 1 ∷ []
encode (assign_task id task) = 2 ∷ []
encode (task_result id result) = 3 ∷ []
encode _ = 0 ∷ []

abbrev wire : Wire
wire = record {
  to_vec = encode;
  from_slice = λ b. some (assign_task "t" get_storage);
  from_utf8 = λ b. none;
}

abbrev setting : Setting
setting = record {
  env = environment;
  wire = wire;
  config = default;
  token = [];
  dials = λ k n addr. none;
}

abbrev disk_node : NodeInfo
disk_node = record {
  addr = "d1";
  last_heartbeat = 1000;
  port = none;
  active_tasks = [];
  is_worker = true;
  role = disk;
}

abbrev idle : MasterNode
idle = record {
  connected_nodes = ("d1", disk_node) ∷ [];
  available_ports = [];
  failover_timeout_ms = 5000;
  pending_tasks = [];
  completed_tasks = [];
  state_file = "master_state.json";
  spawned_saves = 0;
}

abbrev open_socket : Socket
open_socket = record { sent = []; room = 9 }

abbrev at_idle : Connection
at_idle = record { master = idle; socket = open_socket }

abbrev node : NodeState setting
node = record {
  link = record { incoming = (2 ∷ []) ∷ []; socket = open_socket };
  open_tasks = [];
  worker = worker_a;
  reconnects = 0;
  spawned = [];
}

abbrev free : TaskResult
free = response "free: 2 bytes\na: 3 bytes\n"

submitted_task_is_answered_example :
    let beaten =
      after_beat wire "d1" "c1" "t" get_storage 2
        (submitted wire "d1" "c1" "t" get_storage 1 at_idle)
        open_socket in
    let reported = (handle_message wire "d1" 3 (task_result "t" free) beaten).1.master in
    let polled =
      handle_message wire "c1" 4
        (get_task_result "t")
        (record { master = reported; socket = open_socket }) in
    Has (2 ∷ []) beaten.socket.sent
    × ((on_event setting readable node).1.link.socket.sent ≡ (3 ∷ []) ∷ [])
    × (polled.1.socket.sent ≡ (3 ∷ []) ∷ [])
unfolding running get insert role_for_task handle_message submit spawn_save_state send send_frame
submitted_task_is_answered_example =
    submitted_task_is_answered setting "d1" "c1" "t" get_storage free 1 2 3 4 8 8 8 at_idle
      open_socket open_socket disk_node node [] tt refl refl refl refl (omega arith) refl refl refl
      refl refl

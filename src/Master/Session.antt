-- ===== src/Master/Session.antt =====
-- CPCluster_masterNode/src/lib.rs: `handle_peer_connection` and `handle_connection`. The frames that
-- the client sends, and the time at which each is handled, are an argument.
pub mod PeerSync
pub mod Leave
pub mod Results
use cpcluster.Prelude.{
  ℕ, String, true, false, Option, none, some, List, [], ◌∷◌, io_error, utf8_error, json_error,
  str_eq, if◌then◌else◌,
}
use cpcluster.Prelude.Action.{Action, ◌>>=◌, ◌>>◌, pure}
use cpcluster.Prelude.Dict
use cpcluster.Prelude.Dict.{Dict}
use cpcluster.Prelude.Text.{trim}
use cpcluster.Common.Protocol.{
  Bytes, ok_frame, invalid_token, master_sync, NodeRole, worker, Task, TaskResult, NodeMessage,
  request_connection, connection_info, get_connected_nodes, connected_nodes, submit_task,
  get_task_result, disconnect, heartbeat, heartbeat_ack, task_result, task_accepted, direct_message,
  register_role,
}
use cpcluster.Common.Wire.{Wire}
use cpcluster.Master.State.{NodeInfo, MasterNode, spawn_save_state}
use cpcluster.Master.Ports.{allocate_port, release_port}
use cpcluster.Master.Merge.{PeerState, collect_state, merge_state}
use cpcluster.Master.Dispatch.{remove_active, send_pending_tasks}
use cpcluster.Master.Connection.{Connection, locked, gets, modify, or_fail, fail, ignoring, send}

-- serde_json at `PeerState`.
pub record PeerFormat : Type 0 where
  pub to_vec : PeerState → Bytes
  pub from_slice : Bytes → Option PeerState

-- A frame, and the clock (`now_ms`) when it is handled.
pub record Arrival : Type 0 where
  pub payload : Bytes
  pub now : ℕ

-- Whether the loop goes on after a message.
pub data Flow : Type 0 where
  go_on stop : Flow

abbrev pub unless_stopped : Flow → Action Connection (Unit {0}) → Action Connection (Unit {0})
unless_stopped stop rest = pure tt
unless_stopped go_on rest = rest

-- `NodeInfo` of a client that was just accepted.
abbrev pub new_node : String → ℕ → NodeInfo
new_node addr now = record {
  addr = addr;
  last_heartbeat = now;
  port = none;
  active_tasks = [];
  is_worker = false;
  role = worker;
}

unfoldable pub accept_node : String → ℕ → MasterNode → MasterNode
unfolding spawn_save_state
accept_node addr now m =
    spawn_save_state
      (record m { connected_nodes = Dict.insert addr (new_node addr now) m.connected_nodes })

unfoldable pub remove_node : String → MasterNode → MasterNode
unfolding spawn_save_state
remove_node addr m =
    spawn_save_state (record m { connected_nodes = Dict.remove addr m.connected_nodes })

unfoldable pub modify_node : String → (NodeInfo → NodeInfo) → MasterNode → MasterNode
modify_node addr f m = record m { connected_nodes = Dict.and_modify addr f m.connected_nodes }

unfoldable pub submit : String → Task → MasterNode → MasterNode
unfolding spawn_save_state
submit id task m = spawn_save_state (record m {
  pending_tasks = Dict.insert id (record { task = task; target = none }) m.pending_tasks;
})

-- A result ends the task at this node and in the table of pending tasks.
unfoldable pub complete : String → String → TaskResult → MasterNode → MasterNode
unfolding spawn_save_state
complete addr id result m = spawn_save_state (record m {
  connected_nodes = Dict.and_modify addr (remove_active id) m.connected_nodes;
  pending_tasks = Dict.remove id m.pending_tasks;
  completed_tasks = Dict.insert id result m.completed_tasks;
})

abbrev pub set_role : NodeRole → NodeInfo → NodeInfo
set_role role n = record n { role = role }

abbrev pub set_port : ℕ → NodeInfo → NodeInfo
set_port port n = record n { port = some port }

abbrev pub beat : ℕ → NodeInfo → NodeInfo
beat now n = record n { last_heartbeat = now; is_worker = true }

abbrev pub addr_of : Option NodeInfo → Option String
addr_of none = none
addr_of (some n) = some n.addr

-- The reply to `GetTaskResult`.
abbrev pub poll_reply : String → Option TaskResult → NodeMessage
poll_reply id (some result) = task_result id result
poll_reply id none = direct_message "Pending"

module _ (wire : Wire) where
  open wire use {to_vec}

  -- The reply, if the target is connected.
  unfoldable pub announce : ℕ → Option String → Action Connection Flow
  announce port none = pure go_on
  announce port (some target_addr) = do send (to_vec (connection_info target_addr port)); pure go_on

  -- `RequestConnection`: a port is taken and recorded before the target is looked up.
  unfoldable pub connect_nodes : String → String → Action Connection Flow
  unfolding announce
  connect_nodes addr target_id = do
    port ← locked allocate_port
    elim port [
      | none ↦ pure go_on
      | some p ↦ do
        modify (modify_node addr (set_port p))
        target ← gets (λ m. addr_of (Dict.get target_id m.connected_nodes))
        announce p target
    ]

  -- One message of the authenticated client at `addr`.
  unfoldable pub handle_message : String → ℕ → NodeMessage → Action Connection Flow
  unfolding connect_nodes
  handle_message addr now (register_role role) = do
    modify (modify_node addr (set_role role))
    pure go_on
  handle_message addr now get_connected_nodes = do
    nodes ← gets (λ m. Dict.keys m.connected_nodes)
    send (to_vec (connected_nodes nodes))
    pure go_on
  handle_message addr now (request_connection target_id) = connect_nodes addr target_id
  handle_message addr now (submit_task id task) = do
    modify (submit id task)
    send (to_vec (task_accepted id))
    pure go_on
  handle_message addr now (get_task_result id) = do
    result ← gets (λ m. Dict.get id m.completed_tasks)
    send (to_vec (poll_reply id result))
    pure go_on
  handle_message addr now disconnect = do
    modify (release_port addr)
    modify (remove_node addr)
    pure stop
  handle_message addr now heartbeat = do
    modify (modify_node addr (beat now))
    send (to_vec heartbeat_ack)
    pure go_on
  handle_message addr now (task_result id result) = do modify (complete addr id result); pure go_on
  handle_message addr now _ = pure go_on

  -- The loop: a read that fails ends it, and so does `Disconnect`.
  unfoldable pub serve : String → List Arrival → Action Connection (Unit {0})
  unfolding handle_message
  serve addr [] = pure tt
  serve addr (a ∷ incoming) = do
    msg ← or_fail (wire.from_slice a.payload) json_error
    flow ← handle_message addr a.now msg
    unless_stopped flow (ignoring (send_pending_tasks wire addr) >> serve addr incoming)

  -- The loop, and the removal of the node when it ends by itself.
  unfoldable pub serve_rest : String → List Arrival → Action Connection (Unit {0})
  unfolding serve
  serve_rest addr incoming = do serve addr incoming; modify (remove_node addr)

  -- After the token was accepted.
  unfoldable pub serve_client : String → ℕ → List Arrival → Action Connection (Unit {0})
  unfolding serve_rest
  serve_client addr now incoming = do
    modify (accept_node addr now)
    ignoring (send_pending_tasks wire addr)
    serve_rest addr incoming

  module _ (peers : PeerFormat) where
    unfoldable pub handle_peer_connection : List Arrival → Action Connection (Unit {0})
    handle_peer_connection [] = fail io_error
    handle_peer_connection (a ∷ _) = do
      state ← or_fail (peers.from_slice a.payload) json_error
      modify (merge_state state)
      local_state ← gets collect_state
      send (peers.to_vec local_state)

    -- `connect_to_peer` on an open stream: `reply` is the frame that the peer answers with.
    unfoldable pub sync_with_peer : Option Bytes → Action Connection (Unit {0})
    sync_with_peer reply = do
      send master_sync
      state ← gets collect_state
      send (peers.to_vec state)
      resp ← or_fail reply io_error
      other ← or_fail (peers.from_slice resp) json_error
      modify (merge_state other)

    -- The branches on the first frame, trimmed.
    unfoldable pub authenticate :
        String → String → ℕ → String → List Arrival → Action Connection (Unit {0})
    unfolding serve_client handle_peer_connection
    authenticate token addr now received incoming =
        if str_eq received "MASTER_SYNC"
        then handle_peer_connection incoming
        else if str_eq received token
        then (do send ok_frame; serve_client addr now incoming)
        else send invalid_token

    -- The first frame is the token, or announces another master.
    unfoldable pub handle_connection : String → String → List Arrival → Action Connection (Unit {0})
    unfolding authenticate
    handle_connection token addr [] = fail io_error
    handle_connection token addr (a ∷ incoming) = do
      text ← or_fail (wire.from_utf8 a.payload) utf8_error
      authenticate token addr a.now (trim text) incoming

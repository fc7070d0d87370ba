-- ===== src/Pipeline.antt =====
-- The way of a task through the programs: from a client to the master, to a node, and back.
use cpcluster.Prelude.{
  ℕ, suc, ◌≤◌, ◌≡◌, refl, String, false, none, some, List, [], ◌∷◌, ◌++◌, arith, length, returned,
  eq_refl, ◌∙◌, ap, sym, subst,
}
use cpcluster.Prelude.Dict
use cpcluster.Prelude.Dict.{Dict, get, get-insert, get-and_modify_self}
use cpcluster.Prelude.Dict.Table.{IsTable, insert-IsTable}
use cpcluster.Common.Protocol.{
  Bytes, Task, TaskResult, submit_task, heartbeat, heartbeat_ack, assign_task, task_result,
  get_task_result,
}
use cpcluster.Common.Wire.{Wire, Socket, send_frame}
use cpcluster.Master.State.{NodeInfo, PendingTask, MasterNode}
use cpcluster.Master.Connection.{Connection, send}
use cpcluster.Master.Dispatch.{is_active, role_for_task, send_pending_tasks}
use cpcluster.Master.Dispatch.Progress.{Has, send_pending_tasks-Has}
use cpcluster.Master.Session.{beat, modify_node, submit, handle_message}
use cpcluster.Master.Session.Results.{poll_after_result}
use cpcluster.Node.Tasks.{execute_node_task}
use cpcluster.Node.Link
use cpcluster.Node.Link.{Link}
use cpcluster.Node.Loop.{
  Setting, NodeState, report, on_assign, on_message, on_event, readable, going,
}

-- A heartbeat leaves the tasks as active as they were.
is_active-beat :
    (addr id : String) (now : ℕ) (nodes : Dict NodeInfo)
    → is_active id (Dict.and_modify addr (beat now) nodes) ≡ is_active id nodes
unfolding Dict.and_modify
is_active-beat addr id now [] = refl
is_active-beat addr id now ((a, n) ∷ nodes) = ground (arith, is_active-beat addr id now nodes)

module _ (wire : Wire) (worker client id : String) (task : Task) where
  abbrev wanted : PendingTask
  wanted = record { task = task; target = none }

  -- The master after the client has submitted the task.
  abbrev pub submitted : ℕ → Connection → MasterNode
  submitted now c = (handle_message wire client now (submit_task id task) c).1.master

  -- The connection of the worker after its next heartbeat.
  abbrev pub after_beat : ℕ → MasterNode → Socket → Connection
  after_beat now m socket =
      (send_pending_tasks wire worker
        (handle_message wire worker now heartbeat (record { master = m; socket = socket })).1).1

  submitted_lem : (now : ℕ) (c : Connection) → submitted now c ≡ submit id task c.master
  unfolding handle_message send
  submitted_lem now c = ground arith

  -- The connection after the answer to a heartbeat.
  abbrev acked : ℕ → MasterNode → Socket → ℕ → Connection
  acked now m s r = record {
    master = modify_node worker (beat now) m;
    socket = record { sent = s.sent ++ wire.to_vec heartbeat_ack ∷ []; room = r };
  }

  heartbeat_lem :
      (now r : ℕ) (m : MasterNode) (s : Socket)
      → s.room ≡ suc r
      → (handle_message wire worker now heartbeat (record { master = m; socket = s })).1
        ≡ acked now m s r
  unfolding handle_message send send_frame
  heartbeat_lem now r m s e = ground arith

  dispatched :
      (now r : ℕ) (m : MasterNode) (s : Socket) (node : NodeInfo)
      → IsTable m.pending_tasks
      → get id m.pending_tasks ≡ some wanted
      → is_active id m.connected_nodes ≡ false
      → get worker m.connected_nodes ≡ some node
      → node.role ≡ role_for_task task
      → length m.pending_tasks ≤ r
      → Has
          (wire.to_vec (assign_task id task))
          (send_pending_tasks wire worker (acked now m s r)).1.socket.sent
  unfolding modify_node
  dispatched now r m s node table pending idle connected suits room =
      (send_pending_tasks-Has wire worker id wanted (acked now m s r) table room pending
        (is_active-beat worker id now m.connected_nodes ∙ idle)
        (ground
          (arith, get-and_modify_self worker (beat now) m.connected_nodes node connected, suits))
        refl).1

  reaches :
      (now r : ℕ) (c : Connection) (m : MasterNode) (s : Socket) (node : NodeInfo)
      → m ≡ submit id task c.master
      → IsTable c.master.pending_tasks
      → get worker c.master.connected_nodes ≡ some node
      → node.role ≡ role_for_task task
      → is_active id c.master.connected_nodes ≡ false
      → length m.pending_tasks ≤ r
      → Has
          (wire.to_vec (assign_task id task))
          (send_pending_tasks wire worker (acked now m s r)).1.socket.sent
  unfolding submit
  reaches now r c m s node e table connected suits idle room =
      let pending : m.pending_tasks ≡ Dict.insert id wanted c.master.pending_tasks =
        ap (λ x. x.pending_tasks) e in
      let nodes : m.connected_nodes ≡ c.master.connected_nodes = ap (λ x. x.connected_nodes) e in
      dispatched now r m s node (rw pending (insert-IsTable id wanted c.master.pending_tasks table))
        (rw pending (ground (arith, get-insert id id wanted c.master.pending_tasks, eq_refl id)))
        (rw nodes idle) (rw nodes connected) suits room

  -- A task that was submitted reaches the worker with its next heartbeat.
  after_beat-Has :
      (now later r : ℕ) (c : Connection) (s : Socket) (node : NodeInfo)
      → IsTable c.master.pending_tasks
      → get worker c.master.connected_nodes ≡ some node
      → node.role ≡ role_for_task task
      → is_active id c.master.connected_nodes ≡ false
      → s.room ≡ suc r
      → length (submitted now c).pending_tasks ≤ r
      → Has (wire.to_vec (assign_task id task)) (after_beat later (submitted now c) s).socket.sent
  after_beat-Has now later r c s node table connected suits idle takes room =
      let frame = wire.to_vec (assign_task id task) in
      subst (λ d. Has frame (send_pending_tasks wire worker d).1.socket.sent)
        (sym (heartbeat_lem later r (submitted now c) s takes))
        (reaches later r c (submitted now c) s node (submitted_lem now c) table connected suits idle
          room)

  -- The node that reads the frame answers it.
  node_answers :
      (setting : Setting) (n : NodeState setting) (b : Bytes) (frames : List Bytes)
      (result : TaskResult) (room : ℕ)
      → setting.wire.from_slice b ≡ some (assign_task id task)
      → n.link.incoming ≡ b ∷ frames
      → n.link.socket.room ≡ suc room
      → (execute_node_task setting.env task n.worker).0 ≡ returned result
      → let ran = on_event setting readable n in
        (ran.0 ≡ going)
        × (ran.1.link.socket.sent
            ≡ n.link.socket.sent ++ setting.wire.to_vec (task_result id result) ∷ [])
  unfolding on_event on_message on_assign report Link.send Link.receive send_frame
  node_answers setting n b frames result room parsed reads takes done = ground arith

-- A task that a client submits is answered. Where its name is not that of an active task, a worker of
-- its role is connected, the sockets take what is sent, what is read back is what was written, and the
-- task returns: the next heartbeat of the worker sends it the task, the node that reads the frame
-- sends the result, and after the master has handled that result, the client that asks for it is sent
-- it.
pub submitted_task_is_answered :
    (setting : Setting) (worker client id : String) (task : Task) (result : TaskResult)
    (submit_at beat_at report_at ask_at r room k : ℕ) (c : Connection) (s asked : Socket)
    (node : NodeInfo) (n : NodeState setting) (frames : List Bytes)
    → let wire = setting.wire in
      let frame = wire.to_vec (assign_task id task) in
      let answer = wire.to_vec (task_result id result) in
      IsTable c.master.pending_tasks
      → get worker c.master.connected_nodes ≡ some node
      → node.role ≡ role_for_task task
      → is_active id c.master.connected_nodes ≡ false
      → s.room ≡ suc r
      → length (submitted wire worker client id task submit_at c).pending_tasks ≤ r
      → wire.from_slice frame ≡ some (assign_task id task)
      → n.link.incoming ≡ frame ∷ frames
      → n.link.socket.room ≡ suc room
      → (execute_node_task setting.env task n.worker).0 ≡ returned result
      → asked.room ≡ suc k
      → let beaten =
          after_beat wire worker client id task beat_at
            (submitted wire worker client id task submit_at c)
            s in
        let ran = on_event setting readable n in
        let reported =
          (handle_message wire worker report_at (task_result id result) beaten).1.master in
        let polled =
          handle_message wire client ask_at
            (get_task_result id)
            (record { master = reported; socket = asked }) in
        Has frame beaten.socket.sent
        × (ran.1.link.socket.sent ≡ n.link.socket.sent ++ answer ∷ [])
        × (polled.1.socket.sent ≡ asked.sent ++ answer ∷ [])
submitted_task_is_answered setting worker client id task result submit_at beat_at report_at ask_at r
      room k c s asked node n frames table connected suits idle takes space parsed reads writes done
      asks =
    let wire = setting.wire in
    let m = submitted wire worker client id task submit_at c in
    let beaten = after_beat wire worker client id task beat_at m s in
    (
      after_beat-Has wire worker client id task submit_at beat_at r c s node table connected suits
          idle takes space,
      (node_answers wire worker client id task setting n _ frames result room parsed reads writes
          done).1,
      (poll_after_result wire worker client report_at ask_at id result beaten asked k asks).1,
    )

-- ===== src/Node/Loop.antt =====
-- CPCluster_node/src/node.rs: `heartbeat_loop`. What `select!` takes up next is an argument: a list of
-- events, in any order. The direct connections that it spawns are only listed; `Direct` is
-- their loop.
pub mod Results
use cpcluster.Prelude.{
  ℕ, suc, ◌+◌, String, Bool, true, false, Option, none, some, List, [], ◌∷◌, ◌++◌, Result, ok, err,
  Ran, returned, panicked, if◌then◌else◌,
}
use cpcluster.Prelude.Dict
use cpcluster.Prelude.Dict.{Dict}
use cpcluster.Prelude.Files.{Files}
use cpcluster.Common.Protocol.{
  Bytes, disk, internet, role_eq, Task, TaskResult, NodeMessage, connection_info, heartbeat,
  heartbeat_ack, assign_task, task_result, disconnect,
}
use cpcluster.Common.Wire.{Wire}
use cpcluster.Common.Config.{Config}
use cpcluster.Node.Memory
use cpcluster.Node.Disk
use cpcluster.Node.Disk.{DiskStore}
use cpcluster.Node.Ports.{InternetPorts, bind}
use cpcluster.Node.Tasks.{Environment, WorkerState, execute_node_task}
use cpcluster.Node.Link.{Link, send, receive, is_ok, reconnect}

-- What the loop is given; `dials` is the network at each reconnection.
pub record Setting : Type 1 where
  pub env : Environment
  pub wire : Wire
  pub config : Config
  pub token : Bytes
  pub dials : ℕ → ℕ → String → Option Link

-- The branch of `select!`: the timer, or the stream, which yields a frame or an error.
pub data Event : Type 0 where
  tick readable : Event

-- How the loop stands after an event.
pub data Standing : Type 0 where
  going left crashed : Standing

module _ (setting : Setting) where
  open setting use {env, wire, config, token, dials}

  pub record NodeState : Type 1 where
    pub link : Link
    pub open_tasks : Dict NodeMessage
    pub worker : WorkerState env
    pub reconnects : ℕ
    pub spawned : List (String × ℕ)

  abbrev ports_or_none : Option (List ℕ) → List ℕ
  ports_or_none none = []
  ports_or_none (some ports) = ports

  abbrev pub disk_store : ℕ → Files Bytes → Option DiskStore
  disk_store directory_size files =
      if role_eq config.role disk
      then some (Disk.new config.storage_dir config.disk_space_mb directory_size files)
      else none

  abbrev pub internet_store : Option (InternetPorts env.network.sockets)
  internet_store =
      if role_eq config.role internet
      then some (bind env.network.sockets (ports_or_none config.internet_ports))
      else none

  -- What a node starts with, given the file system and the size of its storage directory.
  unfoldable pub new_worker : ℕ → Files Bytes → WorkerState env
  new_worker directory_size files = record {
    files = files;
    memory = Memory.new;
    disk = disk_store directory_size files;
    internet = internet_store;
  }

  abbrev pub after_reconnect : Result Link → NodeState → Standing × NodeState
  after_reconnect (ok l) s = (going, record s { link = l; reconnects = s.reconnects + 1 })
  after_reconnect (err e) s = (left, record s { reconnects = s.reconnects + 1 })

  -- `reconnect(…)`, and `continue` or `break`.
  unfoldable pub try_reconnect : NodeState → Standing × NodeState
  try_reconnect s =
      after_reconnect
        (reconnect wire (dials s.reconnects) token config.max_retries config.master_addresses
          s.open_tasks).0
        s

  abbrev pub send_to_master : NodeMessage → NodeState → Bool × NodeState
  send_to_master msg s = (
    is_ok (send (wire.to_vec msg) s.link).0,
    record s { link = (send (wire.to_vec msg) s.link).1 },
  )

  -- Before the loop, where a failure is only logged.
  abbrev pub first_heartbeat : NodeState → NodeState
  first_heartbeat s = (send_to_master heartbeat s).1

  unfoldable pub on_tick : NodeState → Standing × NodeState
  on_tick s =
      let sent = send_to_master heartbeat s in
      if sent.0 then (going, sent.1) else try_reconnect sent.1

  -- The result is open until it was sent.
  unfoldable pub report : String → TaskResult → NodeState → NodeState
  report id result s =
      let msg = task_result id result in
      let opened = record s { open_tasks = Dict.insert id msg s.open_tasks } in
      let sent = send_to_master msg opened in
      if sent.0 then record sent.1 { open_tasks = Dict.remove id sent.1.open_tasks } else sent.1

  abbrev pub executed : String → Ran TaskResult → NodeState → Standing × NodeState
  executed id (returned result) s = (going, report id result s)
  executed id panicked s = (crashed, s)

  unfoldable pub on_assign : String → Task → NodeState → Standing × NodeState
  on_assign id task s =
      executed id (execute_node_task env task s.worker).0
        (record s { worker = (execute_node_task env task s.worker).1 })

  unfoldable pub on_message : Option NodeMessage → NodeState → Standing × NodeState
  on_message (some (connection_info target port)) s =
      (going, record s { spawned = s.spawned ++ (target, port) ∷ [] })
  on_message (some (assign_task id task)) s = on_assign id task s
  on_message _ s = (going, s)

  abbrev pub on_read : Result Bytes → NodeState → Standing × NodeState
  on_read (ok buf) s = on_message (wire.from_slice buf) s
  on_read (err e) s = try_reconnect s

  unfoldable pub on_event : Event → NodeState → Standing × NodeState
  on_event tick s = on_tick s
  on_event readable s = on_read (receive s.link).0 (record s { link = (receive s.link).1 })

  -- `Disconnect` after the loop was left.
  abbrev pub finish : NodeState → NodeState
  finish s = (send_to_master disconnect s).1

  -- The loop on the events that come, and what follows it.
  unfoldable pub run_loop : List Event → NodeState → Standing × NodeState
  run_loop [] s = (going, s)
  run_loop (e ∷ events) s = elim (on_event e s).0 [
    | going ↦ run_loop events (on_event e s).1
    | left ↦ (left, finish (on_event e s).1)
    | crashed ↦ (crashed, (on_event e s).1)
  ]

  unfoldable pub heartbeat_loop : Link → ℕ → Files Bytes → List Event → Standing × NodeState
  heartbeat_loop l directory_size files events = run_loop events (
      first_heartbeat (record {
        link = l;
        open_tasks = [];
        worker = new_worker directory_size files;
        reconnects = 0;
        spawned = [];
      }))

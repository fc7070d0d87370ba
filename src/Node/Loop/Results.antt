-- ===== src/Node/Loop/Results.antt =====
-- What becomes of the results of a node, and what can end its loop.
use cpcluster.Prelude.{
  str_eq, Bool, String, false, Option, none, some, List, [], ◌∷◌, ◌++◌, Result, ok, err, Ran,
  returned, panicked, ◌≡◌, ◌≢◌, refl, ◌⊎◌, inl, inr, arith, eq_iff, eq_refl, Bool-cases,
}
use cpcluster.Prelude.Dict
use cpcluster.Prelude.Dict.{Dict, get, get-insert, get-remove}
use cpcluster.Common.Protocol.{
  Bytes, Task, TaskResult, NodeMessage, heartbeat, assign_task, task_result,
}
use cpcluster.Common.Wire.{send_frame}
use cpcluster.Node.Tasks.{execute_node_task}
use cpcluster.Node.Tasks.Replies.{is_parsed, execute_node_task-returns}
use cpcluster.Node.Link.{send, receive}
use cpcluster.Node.Loop.{
  Setting, Event, tick, readable, Standing, going, left, crashed, NodeState, report, send_to_master,
  executed, on_assign, on_message, on_read, on_tick, try_reconnect, on_event, run_loop,
}

Standing-cases : (x : Standing) → (x ≡ going) ⊎ ((x ≡ left) ⊎ (x ≡ crashed))
Standing-cases going = inl refl
Standing-cases left = inr (inl refl)
Standing-cases crashed = inr (inr refl)

module _ (setting : Setting) where
  -- A result is never lost: after a task was executed, its result was sent to the master, or it is
  -- open, to be sent again on the next connection.
  pub report_keeps_result :
      (id : String) (result : TaskResult) (s : NodeState setting)
      → ((report setting id result s).link.socket.sent
          ≡ s.link.socket.sent ++ setting.wire.to_vec (task_result id result) ∷ [])
        ⊎ (get id (report setting id result s).open_tasks ≡ some (task_result id result))
  unfolding report send send_frame
  report_keeps_result id result s =
      ground (arith, get-insert id id (task_result id result) s.open_tasks, eq_refl id)

  -- The message of a frame that was read, and of an event.
  abbrev pub message_of : Result Bytes → Option NodeMessage
  message_of (ok b) = setting.wire.from_slice b
  message_of (err e) = none

  abbrev pub taken_up : Event → NodeState setting → Option NodeMessage
  taken_up tick s = none
  taken_up readable s = message_of (receive s.link).0

  module _ (k : String) where
    report_keeps_others :
        (id : String) (result : TaskResult) (s : NodeState setting)
        → id ≢ k
        → get k (report setting id result s).open_tasks ≡ get k s.open_tasks
    unfolding report
    report_keeps_others id result s h = ground (
      arith,
      h,
      eq_iff id k,
      get-insert id k (task_result id result) s.open_tasks,
      get-remove id k (Dict.insert id (task_result id result) s.open_tasks),
    )

    try_reconnect-open :
        (s : NodeState setting) → get k (try_reconnect setting s).1.open_tasks ≡ get k s.open_tasks
    unfolding try_reconnect
    try_reconnect-open s = ground arith

    pub executed-open :
        (id : String) (r : Ran TaskResult) (s : NodeState setting)
        → id ≢ k
        → get k (executed setting id r s).1.open_tasks ≡ get k s.open_tasks
    executed-open id (returned result) s h = report_keeps_others id result s h
    executed-open id panicked s h = refl

    -- Whether a message assigns the task `k`.
    abbrev pub assigns : Option NodeMessage → Bool
    assigns (some (assign_task id task)) = str_eq id k
    assigns _ = false

    on_message-open :
        (msg : Option NodeMessage) (s : NodeState setting)
        → assigns msg ≡ false
        → get k (on_message setting msg s).1.open_tasks ≡ get k s.open_tasks
    unfolding on_message on_assign
    on_message-open none s h = refl
    on_message-open (some (assign_task id task)) s h =
        executed-open id (execute_node_task setting.env task s.worker).0 _
          (λ e. ground (arith, h, e, eq_iff id k))
    on_message-open (some m) s h = ground (arith, h)

    on_read-open :
        (r : Result Bytes) (s : NodeState setting)
        → assigns (message_of r) ≡ false
        → get k (on_read setting r s).1.open_tasks ≡ get k s.open_tasks
    on_read-open (ok b) s h = on_message-open (setting.wire.from_slice b) s h
    on_read-open (err e) s h = try_reconnect-open s

    on_event-open :
        (e : Event) (s : NodeState setting)
        → assigns (taken_up e s) ≡ false
        → get k (on_event setting e s).1.open_tasks ≡ get k s.open_tasks
    unfolding on_event on_tick
    on_event-open tick s h =
        ground (arith, try_reconnect-open (send_to_master setting heartbeat s).1)
    on_event-open readable s h =
        on_read-open (receive s.link).0 (record s { link = (receive s.link).1 }) h

    -- None of the messages that are read assigns the task `k`.
    abbrev pub IsSpared : List Event → NodeState setting → Type 0
    IsSpared [] s = Unit
    IsSpared (e ∷ events) s =
        (assigns (taken_up e s) ≡ false) × IsSpared events (on_event setting e s).1

    -- Whatever events come, an open result stays open, and so it is sent again on every
    -- reconnection, as long as none of the messages that are read assigns its task again.
    pub run_loop_keeps_open :
        (events : List Event) (s : NodeState setting)
        → IsSpared events s
        → get k (run_loop setting events s).1.open_tasks ≡ get k s.open_tasks
    unfolding run_loop
    run_loop_keeps_open [] s h = refl
    run_loop_keeps_open (e ∷ events) s h =
        ground
          (arith, on_event-open e s h.0, run_loop_keeps_open events (on_event setting e s).1 h.1)

  -- An assignment that may make the node panic.
  pub record Poison (msg : Option NodeMessage) : Type 0 where
    pub id : String
    pub task : Task
    pub assigned : msg ≡ some (assign_task id task)
    pub unparsed : is_parsed setting.env task ≡ false

  executed_crash :
      (id : String) (r : Ran TaskResult) (s : NodeState setting)
      → (executed setting id r s).0 ≡ crashed
      → r ≡ panicked
  executed_crash id (returned result) s h = ground (arith, h)
  executed_crash id panicked s h = refl

  on_message_crash :
      (msg : Option NodeMessage) (s : NodeState setting)
      → (on_message setting msg s).0 ≡ crashed
      → Poison msg
  unfolding on_message on_assign
  on_message_crash none s h = ground (arith, h)
  on_message_crash (some (assign_task id task)) s h =
      elim (Bool-cases (is_parsed setting.env task)) [
        | inl parsed ↦ absurd (
            execute_node_task-returns setting.env task s.worker parsed
              (executed_crash id (execute_node_task setting.env task s.worker).0 _ h))
        | inr failed ↦ record { id = id; task = task; assigned = refl; unparsed = failed }
      ]
  on_message_crash (some m) s h = ground (arith, h)

  on_read_crash :
      (r : Result Bytes) (s : NodeState setting)
      → (on_read setting r s).0 ≡ crashed
      → Poison (message_of r)
  unfolding try_reconnect
  on_read_crash (ok b) s h = on_message_crash (setting.wire.from_slice b) s h
  on_read_crash (err e) s h = ground (arith, h)

  on_event_crash :
      (e : Event) (s : NodeState setting)
      → (on_event setting e s).0 ≡ crashed
      → Poison (taken_up e s)
  unfolding on_event on_tick try_reconnect
  on_event_crash tick s h = ground (arith, h)
  on_event_crash readable s h =
      on_read_crash (receive s.link).0 (record s { link = (receive s.link).1 }) h

  -- One of the messages that are read may make the node panic.
  abbrev pub IsPoisoned : List Event → NodeState setting → Type 0
  IsPoisoned [] s = ⊥
  IsPoisoned (e ∷ events) s = Poison (taken_up e s) ⊎ IsPoisoned events (on_event setting e s).1

  -- Where the loop of a node crashes, one of the messages that it read assigns a `DiskWrite`, or a
  -- `Tcp` task whose address does not parse.
  pub run_loop-IsPoisoned :
      (events : List Event) (s : NodeState setting)
      → (run_loop setting events s).0 ≡ crashed
      → IsPoisoned events s
  unfolding run_loop
  run_loop-IsPoisoned [] s h = ground (arith, h)
  run_loop-IsPoisoned (e ∷ events) s h = elim (Standing-cases (on_event setting e s).0) [
    | inl goes ↦ inr (run_loop-IsPoisoned events (on_event setting e s).1 (ground (arith, goes, h)))
    | inr (inl leaves) ↦ ground (arith, leaves, h)
    | inr (inr crashes) ↦ inl (on_event_crash e s crashes)
  ]

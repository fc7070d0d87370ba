-- ===== src/Master/Shell/Run.antt =====
-- CPCluster_masterNode/src/shell.rs: `run_shell`. The shell is a thread of its own: whenever it takes a
-- lock, the rest of the master may have changed. Those changes, the clock, the identifiers of
-- new tasks and the text of `{:?}` are parameters.
use cpcluster.Prelude.{
  ℕ, zero, suc, ◌+◌, String, Bool, true, false, Option, none, some, List, [], ◌∷◌, ◌++◌, map,
  if◌then◌else◌,
}
use Prim.Native.String.{◌++◌ as text_append}
use cpcluster.Prelude.Dict
use cpcluster.Prelude.Dict.{Dict}
use cpcluster.Prelude.Text.{trim}
use cpcluster.Common.Protocol.{
  NodeRole, worker, disk, Task, get_global_ram as ask_ram, get_storage as ask_storage, TaskResult,
  response, error,
}
use cpcluster.Master.State.{PendingTask, NodeInfo, MasterNode}
use cpcluster.Master.Shell.{submit_task_for_node, add_task, task_of, ready_nodes, is_running_in}
use cpcluster.Master.Shell.Command.{
  Command, nodes, tasks, get_global_ram, get_storage, exit, blank, unknown, task, addtask,
  command_of, commands_of,
}

-- All but `rounds` by the number of looks that the shell has taken: the change of the master before
-- the next look, the time, and a fresh identifier. `rounds` says how many further looks fit into the
-- time limit of a wait.
pub record World : Type 0 where
  pub others : ℕ → MasterNode → MasterNode
  pub now : ℕ → ℕ
  pub new_id : ℕ → String
  pub rounds : ℕ → ℕ

-- The derived `Debug`.
pub record Debug : Type 0 where
  pub role : NodeRole → String
  pub task : Task → String
  pub pending : PendingTask → String
  pub result : TaskResult → String

-- What is printed, in order: a line, or the prompt.
pub data Printed : Type 0 where
  line : String → Printed
  prompt : Printed

pub record Shell : Type 0 where
  pub master : MasterNode
  pub looks : ℕ
  pub printed : List Printed

abbrev pub say : String → Shell → Shell
say text s = record s { printed = s.printed ++ line text ∷ [] }

abbrev pub say_all : List String → Shell → Shell
say_all texts s = record s { printed = s.printed ++ map line texts }

abbrev pub ask : Shell → Shell
ask s = record s { printed = s.printed ++ prompt ∷ [] }

infixr 60 ◌+++◌
abbrev ◌+++◌ : String → String → String
s +++ t = text_append s t

module _ (world : World) (debug : Debug) where
  -- A lock is taken.
  abbrev pub look : Shell → Shell
  look s = record s { master = world.others s.looks s.master; looks = suc s.looks }

  abbrev node_lines : Dict NodeInfo → List String
  node_lines = map (λ e. e.0 +++ " (" +++ debug.role e.1.role +++ ")")

  abbrev lines_or : String → List String → List String
  lines_or text [] = text ∷ []
  lines_or text (l ∷ ls) = l ∷ ls

  unfoldable pub list_nodes : Shell → Shell
  list_nodes s =
      let t = look s in
      say_all (lines_or "No connected nodes" (node_lines t.master.connected_nodes)) t

  -- The lines of one node, before those of the others.
  abbrev active_lines : Dict NodeInfo → List String
  active_lines [] = []
  active_lines ((addr, n) ∷ ns) =
      map (λ e. addr +++ ": " +++ e.0 +++ " -> " +++ debug.task e.1) n.active_tasks
      ++ active_lines ns

  abbrev headed : String → String → List String → List String
  headed heading text [] = text ∷ []
  headed heading text (l ∷ ls) = heading ∷ l ∷ ls

  abbrev arrow_lines {ℓ} : {A : Type ℓ} → (A → String) → Dict A → List String
  arrow_lines show = map (λ e. e.0 +++ " -> " +++ show e.1)

  abbrev list_active : Shell → Shell
  list_active s = say_all (lines_or "No active tasks" (active_lines s.master.connected_nodes)) s

  abbrev list_pending : Shell → Shell
  list_pending s =
      say_all
        (headed "Pending tasks:" "No pending tasks"
          (arrow_lines debug.pending s.master.pending_tasks))
        s

  abbrev list_completed : Shell → Shell
  list_completed s =
      say_all
        (headed "Completed tasks:" "No completed tasks"
          (arrow_lines debug.result s.master.completed_tasks))
        s

  -- Three locks, one after the other.
  unfoldable pub list_tasks : Shell → Shell
  list_tasks s = list_completed (look (list_pending (look (list_active (look s)))))

  abbrev pub say_result : String → Option TaskResult → Shell → Shell
  say_result id (some result) = say ("Task " +++ id +++ " finished: " +++ debug.result result)
  say_result id none = say ("Task " +++ id +++ " not found")

  -- `task <id>`: the pending, the active and the completed tasks are looked through in turn.
  unfoldable pub show_task : List String → Shell → Shell
  show_task (word ∷ id ∷ []) s =
      let a = look s in
      let b = look a in
      let c = look b in
      if Dict.contains_key id a.master.pending_tasks
      then say ("Task " +++ id +++ " is pending") a
      else if is_running_in id b.master
      then say ("Task " +++ id +++ " is running") b
      else say_result id (Dict.get id c.master.completed_tasks) c
  show_task _ s = say "Usage: task <id>" s

  abbrev pub queue : Option Task → Shell → Shell
  queue none s = say "Unknown task type. Use 'compute' or 'http'." s
  queue (some t) s =
      let id = world.new_id s.looks in
      let a = look s in say ("Queued task " +++ id) (record a { master = add_task id t a.master })

  unfoldable pub queue_task : List String → Shell → Shell
  queue_task (word ∷ kind ∷ arg ∷ _) s = queue (task_of kind arg) s
  queue_task _ s = say "Usage: addtask compute <expression> | addtask http <url>" s

  -- The changes before so many looks.
  abbrev pub turns : ℕ → ℕ → List (MasterNode → MasterNode)
  turns k zero = []
  turns k (suc n) = world.others k ∷ turns (suc k) n

  abbrev answer : String → Option TaskResult → String
  answer late (some (response r)) = trim r
  answer late (some (error e)) = "Error: " +++ e
  answer late (some other) = "Unexpected result: " +++ debug.result other
  answer late none = late

  -- One node of `getglobalram` or `getstorage`.
  unfoldable pub ask_node : Task → String → String → Shell → Shell
  ask_node t late addr s =
      let id = world.new_id s.looks in
      let a = look (say ("--- " +++ addr +++ " ---") s) in
      let n = world.rounds a.looks in
      let r = submit_task_for_node id addr t (turns a.looks n) a.master in
      say (answer late r.0) (record a { master = r.1; looks = a.looks + n })

  unfoldable pub ask_each : Task → String → List String → Shell → Shell
  ask_each t late [] s = s
  ask_each t late (addr ∷ addrs) s = ask_each t late addrs (ask_node t late addr s)

  abbrev pub ask_or_say : Task → String → String → List String → Shell → Shell
  ask_or_say t missing late [] = say missing
  ask_or_say t missing late (addr ∷ addrs) = ask_each t late (addr ∷ addrs)

  unfoldable pub show_ram : Shell → Shell
  show_ram s =
      let now = world.now s.looks in
      let a = look s in
      ask_or_say ask_ram "No worker nodes available" "Timed out retrieving RAM stats"
        (ready_nodes worker now a.master a.master.connected_nodes) a

  unfoldable pub show_storage : Shell → Shell
  show_storage s =
      let now = world.now s.looks in
      let a = look s in
      ask_or_say ask_storage "No disk nodes available" "Timed out retrieving storage stats"
        (ready_nodes disk now a.master a.master.connected_nodes) a

  -- One command; whether it ends the shell.
  unfoldable pub run_command : Command → Shell → Bool × Shell
  run_command nodes s = (false, list_nodes s)
  run_command tasks s = (false, list_tasks s)
  run_command (task parts) s = (false, show_task parts s)
  run_command (addtask parts) s = (false, queue_task parts s)
  run_command get_global_ram s = (false, show_ram s)
  run_command get_storage s = (false, show_storage s)
  run_command exit s = (true, say "Exiting shell" s)
  run_command blank s = (false, s)
  run_command unknown s = (false, say "Unknown command" s)

  -- The commands of one line; `exit` leaves the others out.
  unfoldable pub run_commands : List String → Shell → Bool × Shell
  run_commands [] s = (false, s)
  run_commands (cmd ∷ cmds) s =
      let ran = run_command (command_of cmd) s in
      let rest = run_commands cmds ran.1 in if ran.0 then (true, ran.1) else rest

  -- The loop on the lines of the input, which ends at the first that cannot be read.
  unfoldable pub run_lines : List (Option String) → Shell → Shell
  run_lines [] s = s
  run_lines (none ∷ input) s = s
  run_lines (some text ∷ input) s =
      let ran = run_commands (commands_of text) s in
      let rest = run_lines input (ask ran.1) in if ran.0 then ran.1 else rest

  abbrev greeting : List String
  greeting =
      "CPCluster shell ready." ∷ "Commands:"
      ∷ "  nodes                - list connected nodes with their role"
      ∷ "  tasks                - list active and pending tasks"
      ∷ "  task <id>           - show status or result of a task"
      ∷ "  addtask <type> <arg> - queue a task (type: compute|http)"
      ∷ "  getglobalram         - show memory usage of a worker"
      ∷ "  getstorage           - show disk usage of a disk node" ∷ "  exit                 - quit"
      ∷ []

  unfoldable pub run_shell : List (Option String) → Shell → Shell
  run_shell input s = run_lines input (ask (say_all greeting s))

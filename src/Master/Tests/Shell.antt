-- ===== src/Master/Tests/Shell.antt =====
-- Runs of the shell, and its theorems at concrete inputs.
use cpcluster.Prelude.{All, ℕ, zero, suc, ◌≡◌, refl, inl, arith, false, none, some, [], ◌∷◌}
use cpcluster.Prelude.Text.{trim_end}
use cpcluster.Prelude.Text.Trim.{IsEnded}
use cpcluster.Prelude.Dict
use cpcluster.Prelude.Dict.{get}
use cpcluster.Common.Protocol.{TaskResult, compute, response}
use cpcluster.Master.State.{MasterNode, spawn_save_state}
use cpcluster.Master.Session.{complete}
use cpcluster.Master.Shell.{
  submit_for, take_result, give_up, wait_result, submit_task_for_node, is_ready, ready_nodes,
}
use cpcluster.Master.Shell.Command.{
  tasks, exit, blank, unknown, task, addtask, command_of, commands_of,
}
use cpcluster.Master.Shell.Run.{
  World, Debug, line, prompt, Shell, list_nodes, list_tasks, show_task, queue, ask_node, ask_each,
  show_ram, show_storage, run_command, run_commands, run_lines,
}
use cpcluster.Master.Shell.Keeps.{Reads}
use cpcluster.Master.Shell.Lines.{Leaves}
use cpcluster.Master.Shell.Addtask.{addtask_line, run_commands-addtask}
use cpcluster.Master.Tests.{busy}

commands_read :
    (command_of " tasks " ≡ tasks)
    × (command_of "tasksx" ≡ task ("tasksx" ∷ []))
    × (command_of "task t1" ≡ task ("task" ∷ "t1" ∷ []))
    × (command_of "addtask  compute 1" ≡ addtask ("addtask" ∷ "" ∷ "compute 1" ∷ []))
    × (command_of "quit" ≡ exit)
    × (command_of "" ≡ blank)
    × (command_of "help" ≡ unknown)
unfolding command_of
commands_read = (refl, refl, refl, refl, refl, refl, refl)

-- The disk node answers the task `s` before the third look.
abbrev answered : ℕ → MasterNode → MasterNode
answered (suc (suc zero)) m = complete "d1" "s" (response " 7 ") m
answered k m = m

abbrev world : World
world = record { others = answered; now = λ k. 92000; new_id = λ k. "s"; rounds = λ k. 2 }

-- A world in which nobody else changes the master.
abbrev quiet : World
quiet = record { others = λ k m. m; now = λ k. 92000; new_id = λ k. "s"; rounds = λ k. 2 }

abbrev debug : Debug
debug = record {
  role = λ r. "Role";
  task = λ t. "Task";
  pending = λ p. "Pending";
  result = λ r. "Result";
}

abbrev start : Shell
start = record { master = busy; looks = 0; printed = [] }

-- The disk node answers `getstorage`, and the shell never prints it; no worker is alive to be asked by `getglobalram`; and what comes
-- after `quit` is left out.
session_runs :
    (run_lines world debug
      (some "getstorage; getglobalram" ∷ some "quit; task t1" ∷ [])
      start).printed
    ≡ line "--- d1 ---"
      ∷ line "Timed out retrieving storage stats"
      ∷ line "No worker nodes available"
      ∷ prompt
      ∷ line "Exiting shell"
      ∷ []
unfolding run_lines run_commands run_command command_of commands_of show_ram show_storage ask_each
    ask_node submit_task_for_node wait_result take_result give_up submit_for ready_nodes is_ready
    complete spawn_save_state Dict.get Dict.insert Dict.remove Dict.and_modify
session_runs = refl

tables_shown :
    (run_lines quiet debug
      (some "nodes; task t1; task t2; task t5; tasks" ∷ none ∷ [])
      start).printed
    ≡ line "w1 (Role)"
      ∷ line "d1 (Role)"
      ∷ line "Task t1 is running"
      ∷ line "Task t2 is pending"
      ∷ line "Task t5 not found"
      ∷ line "w1: t1 -> Task"
      ∷ line "Pending tasks:"
      ∷ line "t2 -> Pending"
      ∷ line "t3 -> Pending"
      ∷ line "No completed tasks"
      ∷ prompt
      ∷ []
unfolding run_lines run_commands run_command command_of commands_of list_nodes show_task list_tasks
    Dict.get
tables_shown = refl

reading : All Reads ("nodes" ∷ "task t2" ∷ [])
unfolding command_of
reading = (refl, (refl, tt))

leaving : Leaves quiet debug (commands_of "exit")
unfolding command_of commands_of
leaving = inl refl

ends_well : IsEnded "1 + 2 "
unfolding trim_end
ends_well h = cc

run_commands-addtask_example :
    run_commands quiet debug (commands_of (addtask_line "compute" "1 + 2 ")) start
    ≡ (false, queue quiet debug (some (compute "1 + 2")) start)
unfolding trim_end
run_commands-addtask_example =
    run_commands-addtask quiet debug "compute" "1 + 2 " start (ground arith) (ground arith)
      (ground arith) ends_well

abbrev result : TaskResult
result = response " 7 "

-- The worker has answered before the first look.
abbrev already_answered : MasterNode
already_answered = record busy { completed_tasks = ("s", result) ∷ [] }

-- ===== src/Master/Shell/Keeps.antt =====
-- What a session of the shell keeps: a predicate that the rest of the master and the shell's own
-- changes keep, and any that the rest of the master keeps where a command only reads.
use cpcluster.Prelude.{
  ℕ, zero, suc, ◌≡◌, refl, String, Bool, true, false, Option, none, some, List, [], ◌∷◌, All,
  Option-cases, inl, inr, if◌then◌else◌,
}
use cpcluster.Prelude.Dict.{get, contains_key}
use cpcluster.Common.Protocol.{Task, TaskResult}
use cpcluster.Master.State.{MasterNode}
use cpcluster.Master.Shell.{
  submit_for, take_result, give_up, meanwhile, wait_result, submit_task_for_node, add_task, task_of,
  is_running_in,
}
use cpcluster.Master.Shell.Command.{
  Command, nodes, tasks, get_global_ram, get_storage, exit, blank, unknown, task, addtask,
  command_of, commands_of,
}
use cpcluster.Master.Shell.Run.{
  World, Debug, Shell, turns, say_result, queue, ask_or_say, list_nodes, list_tasks, show_task,
  queue_task, ask_node, ask_each, show_ram, show_storage, run_command, run_commands, run_lines,
  run_shell, ask,
}

-- Whether a command of the shell only reads: all but `addtask`, `getglobalram` and `getstorage`.
abbrev pub only_reads : Command → Bool
only_reads (addtask parts) = false
only_reads get_global_ram = false
only_reads get_storage = false
only_reads _ = true

abbrev pub Reads : String → Type 0
Reads cmd = only_reads (command_of cmd) ≡ true

if_keeps {ℓ κ} :
    {A : Type ℓ} (P : A → Type κ) (b : Bool) {x y : A} → P x → P y → P (if b then x else y)
if_keeps P true h k = h
if_keeps P false h k = k

module _ (world : World) (debug : Debug) (P : MasterNode → Type 0)
    (others_keep : (k : ℕ) (m : MasterNode) → P m → P (world.others k m)) where
  Holds : Shell → Type 0
  Holds s = P s.master

  say_result-Holds :
      (id : String) (o : Option TaskResult) (s : Shell)
      → P s.master
      → P (say_result world debug id o s).master
  say_result-Holds id none s h = h
  say_result-Holds id (some r) s h = h

  list_tasks-Holds : (s : Shell) → P s.master → P (list_tasks world debug s).master
  unfolding list_tasks
  list_tasks-Holds s h = others_keep _ _ (others_keep _ _ (others_keep _ _ h))

  show_task-Holds :
      (parts : List String) (s : Shell) → P s.master → P (show_task world debug parts s).master
  unfolding show_task Holds
  show_task-Holds [] s h = h
  show_task-Holds (word ∷ []) s h = h
  show_task-Holds (word ∷ id ∷ other ∷ parts) s h = h
  show_task-Holds (word ∷ id ∷ []) s h =
      let m = world.others s.looks s.master in
      let n = world.others (suc s.looks) m in
      let a : P m = others_keep s.looks s.master h in
      let b : P n = others_keep (suc s.looks) m a in
      let c = others_keep (suc (suc s.looks)) n b in
      if_keeps Holds (contains_key id m.pending_tasks) a
        (if_keeps Holds (is_running_in id n) b (say_result-Holds id (get id _) _ c))

  -- A command that only reads.
  pub read-Holds :
      (cmd : Command) (s : Shell)
      → only_reads cmd ≡ true
      → P s.master
      → P (run_command world debug cmd s).1.master
  unfolding run_command list_nodes
  read-Holds nodes s r h = others_keep _ _ h
  read-Holds tasks s r h = list_tasks-Holds s h
  read-Holds (task parts) s r h = show_task-Holds parts s h
  read-Holds exit s r h = h
  read-Holds blank s r h = h
  read-Holds unknown s r h = h
  read-Holds (addtask parts) s r h = cc
  read-Holds get_global_ram s r h = cc
  read-Holds get_storage s r h = cc

  module _
      (submit_keeps : (id target : String) (t : Task) (m : MasterNode)
        → P m
        → P (submit_for id target t m))
      (add_keeps : (id : String) (t : Task) (m : MasterNode) → P m → P (add_task id t m))
      (take_keeps : (id : String) (m : MasterNode) → P m → P (take_result id m).1)
      (give_up_keeps : (id : String) (m : MasterNode) → P m → P (give_up id m)) where
    meanwhile-Holds : (k n : ℕ) (m : MasterNode) → P m → P (meanwhile (turns world debug k n) m)
    meanwhile-Holds k zero m h = h
    meanwhile-Holds k (suc n) m h = others_keep k m h

    wait_result-Holds :
        (id : String) (k n : ℕ) (m : MasterNode)
        → P m
        → P (wait_result id (turns world debug k n) m).1
    unfolding wait_result take_result
    wait_result-Holds id k zero m h = give_up_keeps id m h
    wait_result-Holds id k (suc n) m h = elim (Option-cases (get id m.completed_tasks)) [
      | inl e ↦ rw (e, wait_result) (wait_result-Holds id (suc k) n _ (others_keep k m h))
      | inr (r, e) ↦
          rw (e, wait_result) (give_up_keeps id _ (meanwhile-Holds (suc k) n _ (take_keeps id m h)))
    ]

    queue-Holds : (t : Option Task) (s : Shell) → P s.master → P (queue world debug t s).master
    queue-Holds none s h = h
    queue-Holds (some t) s h = add_keeps _ t _ (others_keep _ _ h)

    queue_task-Holds :
        (parts : List String) (s : Shell) → P s.master → P (queue_task world debug parts s).master
    unfolding queue_task
    queue_task-Holds [] s h = h
    queue_task-Holds (word ∷ []) s h = h
    queue_task-Holds (word ∷ kind ∷ []) s h = h
    queue_task-Holds (word ∷ kind ∷ arg ∷ parts) s h = queue-Holds (task_of kind arg) s h

    ask_node-Holds :
        (t : Task) (late addr : String) (s : Shell)
        → P s.master
        → P (ask_node world debug t late addr s).master
    unfolding ask_node submit_task_for_node
    ask_node-Holds t late addr s h =
        wait_result-Holds _ (suc s.looks) (world.rounds (suc s.looks)) _
          (submit_keeps _ addr t _ (others_keep _ _ h))

    ask_each-Holds :
        (t : Task) (late : String) (addrs : List String) (s : Shell)
        → P s.master
        → P (ask_each world debug t late addrs s).master
    unfolding ask_each
    ask_each-Holds t late [] s h = h
    ask_each-Holds t late (addr ∷ addrs) s h =
        ask_each-Holds t late addrs _ (ask_node-Holds t late addr s h)

    ask_or_say-Holds :
        (t : Task) (missing late : String) (addrs : List String) (s : Shell)
        → P s.master
        → P (ask_or_say world debug t missing late addrs s).master
    ask_or_say-Holds t missing late [] s h = h
    ask_or_say-Holds t missing late (addr ∷ addrs) s h = ask_each-Holds t late (addr ∷ addrs) s h

    run_command-Holds :
        (cmd : Command) (s : Shell) → P s.master → P (run_command world debug cmd s).1.master
    unfolding run_command show_ram show_storage
    run_command-Holds (addtask parts) s h = queue_task-Holds parts s h
    run_command-Holds get_global_ram s h = ask_or_say-Holds _ _ _ _ _ (others_keep _ _ h)
    run_command-Holds get_storage s h = ask_or_say-Holds _ _ _ _ _ (others_keep _ _ h)
    run_command-Holds cmd s h = read-Holds cmd s refl h

    run_commands-Holds :
        (cmds : List String) (s : Shell) → P s.master → P (run_commands world debug cmds s).1.master
    unfolding run_commands
    run_commands-Holds [] s h = h
    run_commands-Holds (cmd ∷ cmds) s h =
        let ran = run_command world debug (command_of cmd) s in
        let k : P ran.1.master = run_command-Holds (command_of cmd) s h in
        if_keeps (λ (r : Bool × Shell). P r.1.master) ran.0 k (run_commands-Holds cmds ran.1 k)

    run_lines-Holds :
        (input : List (Option String)) (s : Shell)
        → P s.master
        → P (run_lines world debug input s).master
    unfolding run_lines Holds
    run_lines-Holds [] s h = h
    run_lines-Holds (none ∷ input) s h = h
    run_lines-Holds (some text ∷ input) s h =
        let ran = run_commands world debug (commands_of text) s in
        let k : P ran.1.master = run_commands-Holds (commands_of text) s h in
        if_keeps Holds ran.0 k (run_lines-Holds input (ask ran.1) k)

    -- A session keeps what the rest of the master and the shell's four changes keep.
    pub run_shell-Holds :
        (input : List (Option String)) (s : Shell)
        → P s.master
        → P (run_shell world debug input s).master
    unfolding run_shell
    run_shell-Holds input s h = run_lines-Holds input _ h

-- A line whose commands only read leaves the master as the rest of the master makes it: what that
-- keeps of the master is kept.
pub run_commands_reads :
    (world : World) (debug : Debug) (P : MasterNode → Type 0)
    → ((k : ℕ) (m : MasterNode) → P m → P (world.others k m))
    → (cmds : List String) (s : Shell) → All Reads cmds
    → P s.master
    → P (run_commands world debug cmds s).1.master
unfolding run_commands
run_commands_reads world debug P others_keep [] s r h = h
run_commands_reads world debug P others_keep (cmd ∷ cmds) s r h =
    let ran = run_command world debug (command_of cmd) s in
    let k : P ran.1.master = read-Holds world debug P others_keep (command_of cmd) s r.0 h in
    if_keeps (λ (r : Bool × Shell). P r.1.master) ran.0 k
      (run_commands_reads world debug P others_keep cmds ran.1 r.1 k)

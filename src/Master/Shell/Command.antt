-- ===== src/Master/Shell/Command.antt =====
-- CPCluster_masterNode/src/shell.rs: how `run_shell` reads a line, as the arms of its `match` in their
-- order.
use cpcluster.Prelude.{ℕ, String, Bool, List, ◌==◌, str_eq, is_some, if◌then◌else◌}
use cpcluster.Prelude.Text.{trim, trim_start}
use cpcluster.Prelude.Text.Split.{split, splitn, split_whitespace, strip_prefix}

-- The parts of `task` and `addtask` are those that the code splits the command into.
pub data Command : Type 0 where
  nodes tasks get_global_ram get_storage exit blank unknown : Command
  task addtask : (parts : List String) → Command

abbrev pub is_semicolon : ℕ → Bool
is_semicolon c = c == 0x3b

abbrev pub is_space : ℕ → Bool
is_space c = c == 0x20

-- `cmd.trim_start().starts_with(word)`
abbrev pub begins : String → String → Bool
begins word cmd = is_some (strip_prefix word (trim_start cmd))

-- The arms, on a command that is trimmed.
unfoldable pub matched : String → Command
unfolding trim_start strip_prefix split_whitespace splitn
matched cmd =
    if str_eq cmd "nodes"
    then nodes
    else if str_eq cmd "tasks"
    then tasks
    else if begins "task" cmd
    then task (split_whitespace cmd)
    else if begins "addtask" cmd
    then addtask (splitn 3 is_space cmd)
    else if str_eq cmd "getglobalram"
    then get_global_ram
    else if str_eq cmd "getstorage"
    then get_storage
    else if str_eq cmd "exit"
    then exit
    else if str_eq cmd "quit"
    then exit
    else if str_eq cmd ""
    then blank
    else unknown

unfoldable pub command_of : String → Command
unfolding trim matched
command_of cmd = matched (trim cmd)

-- The commands of a line.
unfoldable pub commands_of : String → List String
unfolding split
commands_of line = split is_semicolon line

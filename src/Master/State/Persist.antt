-- ===== src/Master/State/Persist.antt =====
-- What a master that restarts finds in its state file.
use cpcluster.Prelude.{String, some, true, ◌≡◌, arith, eq_refl}
use cpcluster.Prelude.Dict.{get-insert}
use cpcluster.Prelude.Files.{Files}
use cpcluster.Master.State.{MasterNode, Format, snapshot, load_state, save_state}

-- A master that loads the state file that another one saved has its nodes, free ports, pending and
-- completed tasks, and keeps its own timeout and file name.
pub load_state-save_state :
    (json : Format) (m fresh : MasterNode) (files : Files String) (text : String)
    → json.to_string_pretty (snapshot m) ≡ some text
    → json.from_str text ≡ some (snapshot m)
    → files.accepts m.state_file ≡ true
    → fresh.state_file ≡ m.state_file
    → let loaded = load_state json (save_state json m files) fresh in
      (snapshot loaded ≡ snapshot m)
      × (loaded.failover_timeout_ms ≡ fresh.failover_timeout_ms)
      × (loaded.state_file ≡ fresh.state_file)
unfolding load_state save_state
load_state-save_state json m fresh files text wrote parsed writable same =
    ground
      (arith, get-insert m.state_file fresh.state_file text files.contents, eq_refl m.state_file)

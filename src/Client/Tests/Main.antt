-- ===== src/Client/Tests/Main.antt =====
-- A run of the client, and its theorem at a concrete input.
use cpcluster.Prelude.{
  ◌==◌, if◌then◌else◌, Option, done, failed, ◌≡◌, refl, none, some, List, [], ◌∷◌, ok, err,
  unauthenticated,
}
use cpcluster.Prelude.Action.{Action, pure}
use cpcluster.Common.Protocol.{
  Bytes, JoinInfo, invalid_token, ok_frame, Task, TaskResult, number, task_result, task_accepted,
  connected_nodes, NodeMessage,
}
use cpcluster.Common.Wire.{Wire, send_frame}
use cpcluster.Common.Execute.{Services, execute_task}
use cpcluster.Node.Link.{Link, send, receive}
use cpcluster.Client.Main.{
  Names, log_in, local_execute, poll, submit_and_poll, chain, run_data_tests, local_run, run,
}
use cpcluster.Client.Main.Chain.{IsUnfinished, stream, chain_ends}

-- Frames of one number: a list of nodes with one or none, an acceptance, and two results.
abbrev decode : Bytes → Option NodeMessage
decode [] = none
decode (n ∷ _) =
    if n == 0
    then some (connected_nodes ("c" ∷ []))
    else if n == 1
    then some (task_accepted "t")
    else if n == 2
    then some (task_result "t" (number 3))
    else if n == 3
    then some (task_result "u" (number 9))
    else if n == 4
    then some (connected_nodes [])
    else none

abbrev wire : Wire
wire = record { to_vec = λ m. 7 ∷ []; from_slice = decode; from_utf8 = λ b. none }

abbrev names : Names
names = record {
  show = λ v. "3";
  into_bytes = λ t. 8 ∷ [];
  first_id = "t";
  second_id = "u";
  mem_id = "m";
  disk_id = "d.txt";
}

-- `submit_and_wait` gives a number at once.
abbrev at_once : Task → Action Link TaskResult
at_once task = pure (number 2)

abbrev services : Services
services = record {
  eval_str = λ t. done 3;
  Reply = Unit {0};
  get = λ u. failed "unreachable";
  text = λ r. done "";
}

abbrev info : JoinInfo
info = record { token = "secret"; ip = "127.0.0.1"; port = 55000 }

abbrev answers : List Bytes
answers =
    ok_frame
    ∷ (0 ∷ [])
    ∷ (1 ∷ [])
    ∷ (1 ∷ [])
    ∷ (2 ∷ [])
    ∷ (1 ∷ [])
    ∷ (1 ∷ [])
    ∷ (1 ∷ [])
    ∷ (3 ∷ [])
    ∷ []

client_runs :
    ((run wire names at_once services info (stream wire names answers 9 [])).0
      ≡ ok (record {
        first = number 3;
        chained = some (number 9);
        printed = "RAM ID: m" ∷ "Storage ID: d.txt" ∷ [];
      }))
    × ((run wire names at_once services info (stream wire names (ok_frame ∷ (4 ∷ []) ∷ []) 9 [])).0
        ≡ ok (record { first = number 3; chained = some (number 3); printed = [] }))
    × ((run wire names at_once services info (stream wire names (invalid_token ∷ []) 9 [])).0
        ≡ err unauthenticated)
unfolding run log_in local_execute chain submit_and_poll poll run_data_tests local_run send receive
    send_frame execute_task
client_runs = (refl, refl, refl)

abbrev accepted : Bytes
accepted = 1 ∷ []

-- One question too early for the first task, and two for the second.
chain_ends_example :
    let incoming =
      accepted ∷ accepted ∷ (2 ∷ []) ∷ accepted ∷ accepted ∷ accepted ∷ (3 ∷ []) ∷ [] in
    let ended = chain wire names (stream wire names incoming 9 []) in
    (ended.0 ≡ ok (number 3, some (number 9))) × (ended.1.incoming ≡ []) × (ended.1.socket.room ≡ 2)
chain_ends_example =
    let early : IsUnfinished wire names accepted = (task_accepted "t", refl, tt) in
    chain_ends wire names 3 (number 9) accepted accepted (2 ∷ []) (3 ∷ []) (accepted ∷ [])
      (accepted ∷ accepted ∷ []) [] [] 2 (early, tt) ("t", refl) (early, (early, tt)) ("u", refl)

-- ===== src/Client/Main.antt =====
-- cpcluster_client/src/main.rs. The stream is that of a node: the frames that the master will send, and
-- those that were sent to it. The names of tasks, the text of an `f64` and the bytes of a text are
-- parameters, and so are the passes of `submit_and_wait`.
pub mod Chain
use cpcluster.Prelude.{
  ℕ, String, Bool, true, false, Option, none, some, List, [], ◌∷◌, Result, ok, err, Error, io_error,
  json_error, unauthenticated, if◌then◌else◌,
}
use Prim.Native.String.{◌++◌ as text_append}
use cpcluster.Prelude.Action.{Action, ◌>>=◌, ◌>>◌, pure}
use cpcluster.Prelude.Dict.{Dict}
use cpcluster.Prelude.Files.{Files}
use cpcluster.Prelude.Text.{decimal}
use cpcluster.Common.Protocol.{
  Bytes, F64, invalid_token, JoinInfo, Task, compute, store_data, disk_write, TaskResult, number,
  NodeMessage, get_connected_nodes, connected_nodes, submit_task, get_task_result, task_result,
}
use cpcluster.Common.Wire.{Wire, Socket, send_frame}
use cpcluster.Common.Execute.{Services, execute_task}
use cpcluster.Common.Join
use cpcluster.Common.Join.{read_join}
use cpcluster.Common.Arguments.{variable_or}
use cpcluster.Node.Link.{Link, send, receive, same_bytes}

-- `to_string` of an `f64`, `into_bytes` of a text, and the identifiers of the run.
pub record Names : Type 0 where
  pub show : F64 → String
  pub into_bytes : String → Bytes
  pub first_id : String
  pub second_id : String
  pub mem_id : String
  pub disk_id : String

-- What the run logs, and the lines that it prints.
pub record Finished : Type 0 where
  pub first : TaskResult
  pub chained : Option TaskResult
  pub printed : List String

-- The address that is connected to.
unfoldable pub master_address : JoinInfo → String
master_address info = text_append info.ip (text_append ":" (decimal info.port))

module _ (wire : Wire) (names : Names) where
  abbrev pub first_task : Task
  first_task = compute "1+2"

  -- The task that is made of the first result.
  abbrev pub next_task : TaskResult → Option Task
  next_task (number v) = some (compute (text_append (names.show v) " * 3"))
  next_task _ = none

  unfoldable pub log_in : String → Action Link (Unit {0})
  log_in token = do
    send (names.into_bytes token)
    resp ← receive
    λ l. if same_bytes resp invalid_token then (err unauthenticated, l) else (ok tt, l)

  abbrev no_worker : Option NodeMessage → Action Link Bool
  no_worker none l = (err json_error, l)
  no_worker (some (connected_nodes [])) l = (ok true, l)
  no_worker (some _) l = (ok false, l)

  -- Whether the tasks are executed here.
  unfoldable pub local_execute : Action Link Bool
  local_execute = do
    send (wire.to_vec get_connected_nodes)
    buf ← receive
    no_worker (wire.from_slice buf)

  abbrev pub on_polled :
      Result TaskResult × Link → Link → Option NodeMessage → Result TaskResult × Link
  on_polled again l none = (err json_error, l)
  on_polled again l (some (task_result _ result)) = (ok result, l)
  on_polled again l (some _) = again

  -- The question and its answer, until a result comes. Each pass takes one frame.
  unfoldable pub poll : String → List Bytes → Socket → Result TaskResult × Link
  poll id [] socket =
      let asked = send_frame (wire.to_vec (get_task_result id)) socket in
      (err io_error, record { incoming = []; socket = asked.1 })
  poll id (buf ∷ frames) socket =
      let asked = send_frame (wire.to_vec (get_task_result id)) socket in
      let again = poll id frames asked.1 in
      elim asked.0 [
        | err e ↦ (err e, record { incoming = buf ∷ frames; socket = asked.1 })
        | ok _ ↦
            on_polled again (record { incoming = frames; socket = asked.1 }) (wire.from_slice buf)
      ]

  -- A task is submitted, one frame is read, and its result waited for.
  unfoldable pub submit_and_poll : String → Task → Action Link TaskResult
  submit_and_poll id task = do
    send (wire.to_vec (submit_task id task))
    reply ← receive
    λ l. poll id l.incoming l.socket

  abbrev chained_result : Option Task → Action Link (Option TaskResult)
  chained_result none = pure none
  chained_result (some task) = do result ← submit_and_poll names.second_id task; pure (some result)

  unfoldable pub chain : Action Link (TaskResult × Option TaskResult)
  chain = do
    first ← submit_and_poll names.first_id first_task
    second ← chained_result (next_task first)
    pure (first, second)

  -- `submit` is `submit_and_wait` with the default timeout.
  module _ (submit : Task → Action Link TaskResult) where
    abbrev stored_lines : TaskResult → Action Link (List String)
    stored_lines (number v) = do
      in_memory ← submit (store_data names.mem_id (names.into_bytes (names.show v)))
      on_disk ← submit (
          disk_write names.disk_id
            (names.into_bytes (text_append names.mem_id (text_append ":" (names.show v)))))
      pure (text_append "RAM ID: " names.mem_id ∷ text_append "Storage ID: " names.disk_id ∷ [])
    stored_lines _ = pure []

    unfoldable pub run_data_tests : Action Link (List String)
    run_data_tests = do compute_res ← submit (compute "1+1"); stored_lines compute_res

    abbrev remote_run : Action Link Finished
    remote_run = do
      results ← chain
      printed ← run_data_tests
      pure (record { first = results.0; chained = results.1; printed = printed })

    module _ (services : Services) where
      abbrev executed_locally : Option Task → Option TaskResult
      executed_locally none = none
      executed_locally (some task) = some (execute_task services task)

      unfoldable pub local_run : Finished
      local_run =
          let result = execute_task services first_task in
          record { first = result; chained = executed_locally (next_task result); printed = [] }

      abbrev either_run : Bool → Action Link Finished
      either_run true = pure local_run
      either_run false = remote_run

      -- The run on an open stream.
      unfoldable pub run : JoinInfo → Action Link Finished
      run join_info = do log_in join_info.token; here ← local_execute; either_run here

      abbrev connected : JoinInfo → Option Link → Result Finished
      connected info none = err io_error
      connected info (some link) = (run info link).0

      abbrev joined : (String → Option Link) → Result JoinInfo → Result Finished
      joined dial (err e) = err e
      joined dial (ok info) = connected info (dial (master_address info))

      -- `dial` is `TcpStream::connect`.
      unfoldable pub main :
          Join.Format
          → (String → Option Link)
          → String
          → Dict String
          → Files String
          → Result Finished
      main join_json dial default_join_path vars files =
          joined dial
            (read_join join_json (variable_or "CPCLUSTER_JOIN" default_join_path vars) vars files)

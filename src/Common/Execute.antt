-- ===== src/Common/Execute.antt =====
-- cpcluster_common/src/execute.rs. The evaluator (meval) and the HTTP client (reqwest) are parameters.
use cpcluster.Prelude.{String, Outcome, done, failed}
use cpcluster.Common.Protocol.{
  F64, Task, compute, http_request, TaskResult, number, response, error,
}

pub record Services : Type 1 where
  pub eval_str : String → Outcome F64
  pub Reply : Type 0
  pub get : String → Outcome Reply
  pub text : Reply → Outcome String

module _ (services : Services) where
  open services use {eval_str, Reply, get, text}

  abbrev evaluated : Outcome F64 → TaskResult
  evaluated (done v) = number v
  evaluated (failed e) = error e

  abbrev text_result : Outcome String → TaskResult
  text_result (done t) = response t
  text_result (failed e) = error e

  abbrev fetched : Outcome Reply → TaskResult
  fetched (done resp) = text_result (text resp)
  fetched (failed e) = error e

  unfoldable pub execute_task : Task → TaskResult
  execute_task (compute expression) = evaluated (eval_str expression)
  execute_task (http_request url) = fetched (get url)
  execute_task _ = error "Unsupported task"

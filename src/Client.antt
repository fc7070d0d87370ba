-- ===== src/Client.antt =====
-- cpcluster_client/src/lib.rs: `submit_and_wait`. What the stream and the clock do is an argument: one
-- `Round` for each pass of the loop.
pub mod Deadline
pub mod Main
mod Tests
use cpcluster.Prelude.{
  ℕ, ◌+◌, Bool, true, false, Option, none, some, List, [], ◌∷◌, Result, ok, err, Error, io_error,
  json_error, timed_out, out_of_fuel, leb, if◌then◌else◌,
}
use cpcluster.Common.Protocol.{Bytes, TaskResult, NodeMessage, task_result}
use cpcluster.Common.Wire.{Wire}

-- The read under `timeout`: a frame, an error, or nothing until the deadline.
pub data Waited : Type 0 where
  frame : Bytes → Waited
  broken silent : Waited

-- Whether the question was written, the clock when the time that remains is computed, what was read,
-- and the clock after it.
pub record Round : Type 0 where
  pub written : Bool
  pub asked_at : ℕ
  pub waited : Waited
  pub answered_at : ℕ

-- `DEFAULT_TIMEOUT`, in milliseconds.
abbrev pub default_timeout : ℕ
default_timeout = 5000

abbrev pub timeout_or_default : Option ℕ → ℕ
timeout_or_default none = default_timeout
timeout_or_default (some t) = t

module _ (wire : Wire) where
  -- The `match` on the message; the id of a result is not looked at.
  abbrev pub on_answer : ℕ → ℕ → Result TaskResult → Option NodeMessage → Result TaskResult
  on_answer deadline now rest none = err json_error
  on_answer deadline now rest (some (task_result id result)) = ok result
  on_answer deadline now rest (some _) = if leb deadline now then err timed_out else rest

  abbrev pub on_waited : ℕ → ℕ → Result TaskResult → Waited → Result TaskResult
  on_waited deadline now rest (frame buf) = on_answer deadline now rest (wire.from_slice buf)
  on_waited deadline now rest broken = err io_error
  on_waited deadline now rest silent = err timed_out

  unfoldable pub wait_loop : ℕ → List Round → Result TaskResult
  wait_loop deadline [] = err out_of_fuel
  wait_loop deadline (r ∷ rounds) =
      let rest = wait_loop deadline rounds in
      if r.written
      then if leb deadline r.asked_at
        then err timed_out
        else on_waited deadline r.answered_at rest r.waited
      else err io_error

  -- The task is written and one frame is read, whatever it says; `now` is the clock after that.
  unfoldable pub submit_and_wait : Option ℕ → Bool → Waited → ℕ → List Round → Result TaskResult
  submit_and_wait timeout_duration written (frame accepted) now rounds =
      if written then wait_loop (now + timeout_or_default timeout_duration) rounds else err io_error
  submit_and_wait timeout_duration written _ now rounds = err io_error

-- ===== src/Client/Tests.antt =====
-- Runs of `submit_and_wait`, and its theorems at concrete inputs.
mod Main
use cpcluster.Prelude.{
  ℕ, ◌+◌, ◌≡◌, ◌≢◌, refl, true, none, some, List, [], ◌∷◌, ok, err, timed_out, out_of_fuel, arith,
}
use cpcluster.Common.Protocol.{stored, task_result, task_accepted}
use cpcluster.Common.Wire.{Wire}
use cpcluster.Client.{Round, frame, wait_loop, submit_and_wait}
use cpcluster.Client.Deadline.{Answer, submit_and_wait_ends, submit_and_wait-Answer}

-- One frame is a result, and another that the task is not done yet.
abbrev wire : Wire
wire = record {
  to_vec = λ m. [];
  from_slice = λ b. elim b [ [] ↦ some (task_accepted "t") | _ ↦ some (task_result "t" stored) ];
  from_utf8 = λ b. none;
}

abbrev not_yet : ℕ → Round
not_yet t = record { written = true; asked_at = t; waited = frame []; answered_at = t }

abbrev done_at : ℕ → Round
done_at t = record { written = true; asked_at = t; waited = frame (1 ∷ []); answered_at = t }

waiting : Unit {0}
unfolding wait_loop submit_and_wait
waiting = tt

answered : submit_and_wait wire none true (frame []) 10 (not_yet 10 ∷ done_at 600 ∷ []) ≡ ok stored
unfolding waiting
answered = refl

gave_up :
    (submit_and_wait wire (some 500) true (frame []) 10 (not_yet 10 ∷ done_at 510 ∷ [])
      ≡ err timed_out)
    × (submit_and_wait wire (some 0) true (frame []) 10 (done_at 10 ∷ []) ≡ err timed_out)
unfolding waiting
gave_up = (refl, refl)

abbrev passes : List Round
passes = not_yet 10 ∷ not_yet 510 ∷ not_yet 1010 ∷ []

submit_and_wait_ends_example :
    submit_and_wait wire (some 600) true (frame []) 10 passes ≢ err out_of_fuel
submit_and_wait_ends_example =
    submit_and_wait_ends wire (some 600) true (frame []) 10 passes
      (omega arith, omega arith, (omega arith, omega arith, (omega arith, omega arith, tt)))
      (omega arith)

submit_and_wait-Answer_example : Answer wire (10 + 5000) (not_yet 10 ∷ done_at 600 ∷ []) stored
submit_and_wait-Answer_example =
    submit_and_wait-Answer wire none true (frame []) 10 (not_yet 10 ∷ done_at 600 ∷ []) stored
      answered

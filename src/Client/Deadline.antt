-- ===== src/Client/Deadline.antt =====
-- A client waits no longer than its timeout.
use cpcluster.Prelude.{
  ℕ, String, zero, suc, ◌+◌, ◌*◌, ◌/◌, ◌≤◌, ◌<◌, ◌≡◌, ◌≢◌, refl, ap, ◌∙◌, ◌⊎◌, Bool, true, false,
  Option, none, some, List, [], ◌∷◌, Result, ok, err, out_of_fuel, length, get_elem?, arith, inl,
  inr,
}
use cpcluster.Common.Protocol.{Bytes, TaskResult, NodeMessage, task_result}
use cpcluster.Common.Wire.{Wire}
use cpcluster.Client.{
  Waited, frame, broken, silent, Round, wait_loop, submit_and_wait, on_waited, on_answer,
  timeout_or_default,
}

-- The clock never runs backwards, and a pass of the loop that is followed by another sleeps for half a
-- second.
abbrev pub IsClock : ℕ → List Round → Type 0
IsClock now [] = Unit
IsClock now (r ∷ rounds) =
    (now ≤ r.asked_at) × (r.asked_at ≤ r.answered_at) × IsClock (r.answered_at + 500) rounds

module _ (wire : Wire) where
  on_waited-fuel :
      (deadline now : ℕ) (rest : Result TaskResult) (w : Waited)
      → rest ≢ err out_of_fuel
      → on_waited wire deadline now rest w ≢ err out_of_fuel
  on_waited-fuel deadline now rest w h e = ground (arith, h, e)

  wait_loop_ends :
      (deadline now passes : ℕ) (rounds : List Round)
      → IsClock now rounds
      → deadline ≤ now + 500 * passes
      → passes < length rounds
      → wait_loop wire deadline rounds ≢ err out_of_fuel
  unfolding wait_loop
  wait_loop_ends deadline now passes [] c d l h = absurd (omega (arith, l))
  wait_loop_ends deadline now zero (r ∷ rounds) c d l h = ground (arith, c, d, h)
  wait_loop_ends deadline now (suc passes) (r ∷ rounds) c d l h = ground (
    arith,
    h,
    on_waited-fuel deadline r.answered_at (wait_loop wire deadline rounds) r.waited (
        wait_loop_ends deadline (r.answered_at + 500) passes rounds c.2 (omega (arith, c.0, c.1, d))
          (omega (arith, l))),
  )

  -- Where the clock does not run backwards and a pass that is followed by another sleeps for half a
  -- second, the loop ends: one pass for each half second of the timeout and two more are enough.
  pub submit_and_wait_ends :
      (timeout_duration : Option ℕ) (written : Bool) (accepted : Waited) (now : ℕ)
      (rounds : List Round)
      → IsClock now rounds
      → timeout_or_default timeout_duration / 500 + 1 < length rounds
      → submit_and_wait wire timeout_duration written accepted now rounds ≢ err out_of_fuel
  unfolding submit_and_wait
  submit_and_wait_ends timeout_duration written accepted now rounds c l h =
      let t = timeout_or_default timeout_duration in
      ground (arith, h, wait_loop_ends (now + t) now (t / 500 + 1) rounds c (omega arith) l)

  -- A result that the client returns.
  pub record Answer (deadline : ℕ) (rounds : List Round) (result : TaskResult) : Type 0 where
    pub place : ℕ
    pub round : Round
    pub buf : Bytes
    pub id : String
    pub stands : get_elem? rounds place ≡ some round
    pub in_time : round.asked_at < deadline
    pub read : round.waited ≡ frame buf
    pub parsed : wire.from_slice buf ≡ some (task_result id result)

  answered_here :
      (deadline : ℕ) (r : Round) (rounds : List Round) (result : TaskResult) (buf : Bytes)
      (msg : Option NodeMessage)
      → r.asked_at < deadline
      → r.waited ≡ frame buf
      → wire.from_slice buf ≡ msg
      → on_answer wire deadline r.answered_at (wait_loop wire deadline rounds) msg ≡ ok result
      → Answer deadline (r ∷ rounds) result ⊎ (wait_loop wire deadline rounds ≡ ok result)
  answered_here deadline r rounds result buf none t e p h = ground (arith, h)
  answered_here deadline r rounds result buf (some (task_result id res)) t e p h = inl (record {
    place = 0;
    round = r;
    buf = buf;
    id = id;
    stands = refl;
    in_time = t;
    read = e;
    parsed = p ∙ ap (λ x. some (task_result id x)) (ground (arith, h));
  })
  answered_here deadline r rounds result buf (some m) t e p h = ground (arith, h)

  waited_here :
      (deadline : ℕ) (r : Round) (rounds : List Round) (result : TaskResult) (w : Waited)
      → r.asked_at < deadline
      → r.waited ≡ w
      → on_waited wire deadline r.answered_at (wait_loop wire deadline rounds) w ≡ ok result
      → Answer deadline (r ∷ rounds) result ⊎ (wait_loop wire deadline rounds ≡ ok result)
  waited_here deadline r rounds result (frame buf) t e h =
      answered_here deadline r rounds result buf (wire.from_slice buf) t e refl h
  waited_here deadline r rounds result broken t e h = ground (arith, h)
  waited_here deadline r rounds result silent t e h = ground (arith, h)

  round-Answer :
      (deadline : ℕ) (r : Round) (rounds : List Round) (result : TaskResult)
      → wait_loop wire deadline (r ∷ rounds) ≡ ok result
      → Answer deadline (r ∷ rounds) result ⊎ (wait_loop wire deadline rounds ≡ ok result)
  unfolding wait_loop
  round-Answer deadline r rounds result h =
      waited_here deadline r rounds result r.waited (ground (arith, h)) refl (ground (arith, h))

  wait_loop-Answer :
      (deadline : ℕ) (rounds : List Round) (result : TaskResult)
      → wait_loop wire deadline rounds ≡ ok result
      → Answer deadline rounds result
  unfolding wait_loop
  wait_loop-Answer deadline [] result h = ground (arith, h)
  wait_loop-Answer deadline (r ∷ rounds) result h = elim (round-Answer deadline r rounds result h) [
    | inl found ↦ found
    | inr later ↦
        let a = wait_loop-Answer deadline rounds result later in
        record {
          place = suc a.place;
          round = a.round;
          buf = a.buf;
          id = a.id;
          stands = a.stands;
          in_time = a.in_time;
          read = a.read;
          parsed = a.parsed;
        }
  ]

  -- What the client returns is a result that was read in a pass begun before the deadline; but it may
  -- be the result of any task.
  pub submit_and_wait-Answer :
      (timeout_duration : Option ℕ) (written : Bool) (accepted : Waited) (now : ℕ)
      (rounds : List Round) (result : TaskResult)
      → submit_and_wait wire timeout_duration written accepted now rounds ≡ ok result
      → Answer (now + timeout_or_default timeout_duration) rounds result
  unfolding submit_and_wait
  submit_and_wait-Answer timeout_duration true (frame b) now rounds result h =
      wait_loop-Answer _ rounds result h
  submit_and_wait-Answer timeout_duration false (frame b) now rounds result h = ground (arith, h)
  submit_and_wait-Answer timeout_duration written broken now rounds result h = ground (arith, h)
  submit_and_wait-Answer timeout_duration written silent now rounds result h = ground (arith, h)

  -- Whichever task the first answer is about, its result is what the client returns.
  pub submit_and_wait_first :
      (timeout_duration : Option ℕ) (accepted buf : Bytes) (now : ℕ) (r : Round)
      (rounds : List Round) (id : String) (result : TaskResult)
      → r.written ≡ true
      → r.asked_at < now + timeout_or_default timeout_duration
      → r.waited ≡ frame buf
      → wire.from_slice buf ≡ some (task_result id result)
      → submit_and_wait wire timeout_duration true (frame accepted) now (r ∷ rounds) ≡ ok result
  unfolding submit_and_wait wait_loop
  submit_and_wait_first timeout_duration accepted buf now r rounds id result w t f p =
      ground (arith, w, t, f, p)

-- ===== src/Client/Main/Chain.antt =====
-- How the run of the client ends.
use cpcluster.Prelude.{ℕ, suc, ◌≡◌, refl, String, some, List, [], ◌∷◌, ◌++◌, All, Result, ok}
use Prim.Native.String.{◌++◌ as text_append}
use cpcluster.Prelude.Action.{proceed}
use cpcluster.Common.Protocol.{
  Bytes, F64, Task, compute, TaskResult, number, NodeMessage, task_result,
}
use cpcluster.Common.Wire.{Wire, send_frame}
use cpcluster.Node.Link.{Link, send, receive}
use cpcluster.Client.Main.{first_task, Names, on_polled, poll, submit_and_poll, chain}

abbrev NoResult : NodeMessage → Type 0
NoResult (task_result id result) = ⊥
NoResult _ = Unit

-- So many writes, one more for each frame of the list.
abbrev pub one_each : List Bytes → ℕ → ℕ
one_each [] n = n
one_each (b ∷ frames) n = suc (one_each frames n)

module _ (wire : Wire) (names : Names) where
  -- A frame that is a message, and no result.
  abbrev pub IsUnfinished : Bytes → Type 0
  IsUnfinished b = (msg : NodeMessage) × (wire.from_slice b ≡ some msg) × NoResult msg

  -- A frame that is a result.
  abbrev pub IsAnswer : TaskResult → Bytes → Type 0
  IsAnswer result b = (id : String) × (wire.from_slice b ≡ some (task_result id result))

  -- A stream that will give these frames, and takes so many.
  abbrev pub stream : List Bytes → ℕ → List Bytes → Link
  stream incoming room sent = record {
    incoming = incoming;
    socket = record { sent = sent; room = room };
  }

  -- A call that gave this result, and left these frames and the room for so many.
  abbrev Ends : (Result TaskResult × Link) → TaskResult → List Bytes → ℕ → Type 0
  Ends outcome result rest room =
      (sent : List Bytes) × (outcome ≡ (ok result, stream rest room sent))

  on_polled-NoResult :
      (msg : NodeMessage) (again : Result TaskResult × Link) (l : Link)
      → NoResult msg
      → on_polled wire names again l (some msg) ≡ again
  on_polled-NoResult (task_result id result) again l h = absurd h
  on_polled-NoResult msg again l h = refl

  poll-Ends :
      (id : String) (before : List Bytes) (buf : Bytes) (rest : List Bytes) (result : TaskResult)
      (sent : List Bytes) (room : ℕ)
      → All IsUnfinished before
      → IsAnswer result buf
      → Ends
          (poll wire names id
            (before ++ buf ∷ rest)
            (record { sent = sent; room = one_each before (suc room) }))
          result
          rest
          room
  unfolding poll send_frame
  poll-Ends id [] buf rest result sent room u (other, a) = rw (a, poll) (_, refl)
  poll-Ends id (b ∷ before) buf rest result sent room ((msg, e, f), u) a =
      rw (e, poll, on_polled-NoResult msg _ _ f) (poll-Ends id before buf rest result _ room u a)

  submit_and_poll-Ends :
      (id : String) (task : Task) (reply : Bytes) (before : List Bytes) (buf : Bytes)
      (rest : List Bytes) (result : TaskResult) (sent : List Bytes) (room : ℕ)
      → All IsUnfinished before
      → IsAnswer result buf
      → Ends
          (submit_and_poll wire names id task
            (stream (reply ∷ before ++ buf ∷ rest) (suc (one_each before (suc room))) sent))
          result
          rest
          room
  unfolding submit_and_poll send receive send_frame
  submit_and_poll-Ends id task reply before buf rest result sent room u a =
      poll-Ends id before buf rest result _ room u a

  -- Where the master takes all that is sent, accepts both tasks with a frame, and answers the questions
  -- for each, after any number of messages that are no result, with a result, of which the first is
  -- a number, the client ends with both results, and has read no further.
  pub chain_ends :
      (v : F64) (result : TaskResult) (reply next_reply buf next_buf : Bytes)
      (before next_before rest sent : List Bytes) (room : ℕ)
      → All IsUnfinished before
      → IsAnswer (number v) buf
      → All IsUnfinished next_before
      → IsAnswer result next_buf
      → let incoming = reply ∷ (before ++ buf ∷ next_reply ∷ (next_before ++ next_buf ∷ rest)) in
        let writes = suc (one_each before (suc (suc (one_each next_before (suc room))))) in
        let ended = chain wire names (stream incoming writes sent) in
        (ended.0 ≡ ok (number v, some result))
        × (ended.1.incoming ≡ rest)
        × (ended.1.socket.room ≡ room)
  unfolding chain
  chain_ends v result reply next_reply buf next_buf before next_before rest sent room u a w b =
      let later = next_reply ∷ (next_before ++ next_buf ∷ rest) in
      let left = suc (one_each next_before (suc room)) in
      let (sent', first) =
        submit_and_poll-Ends names.first_id (first_task wire names) reply before buf later
          (number v) sent left u a in
      let task = compute (text_append (names.show v) " * 3") in
      let (sent'', second) =
        submit_and_poll-Ends names.second_id task next_reply next_before next_buf rest result sent'
          room w b in
      rw (first, proceed, second) (refl, refl, refl)

-- ===== src/Master/Session/Results.antt =====
-- What a client learns of a task, and who may change the master at all.
use cpcluster.Prelude.{
  err, utf8_error, subst, sym, ℕ, suc, ◌≡◌, ◌≢◌, refl, ◌∙◌, ap, String, Option, none, some, List,
  [], ◌∷◌, ◌++◌, arith, ok, Result, if◌then◌else◌, str_eq, eq_iff, eq_refl, Option-cases,
  Bool-cases, inl, inr,
}
use cpcluster.Prelude.Dict.{get, get-insert, get-remove}
use cpcluster.Prelude.Text.{trim}
use cpcluster.Common.Protocol.{
  TaskResult, NodeMessage, request_connection, get_connected_nodes, submit_task, get_task_result,
  disconnect, heartbeat, task_result, register_role, invalid_token,
}
use cpcluster.Common.Wire.{Wire, Socket, send_frame}
use cpcluster.Master.State.{MasterNode}
use cpcluster.Master.Connection.{Connection, send}
use cpcluster.Master.Ports.{allocate_port, release_port}
use cpcluster.Master.Session.{
  Arrival, PeerFormat, go_on, remove_node, modify_node, submit, complete, connect_nodes,
  handle_message, authenticate, handle_connection,
}
use cpcluster.Master.Invariant.Sessions.{master-send-pure, master-announce}

-- A result that a worker reports is what every later poll for its task is answered with, and the
-- task is no longer pending, nor active at that worker.
pub poll_after_result :
    (wire : Wire) (worker client : String) (now now' : ℕ) (id : String) (result : TaskResult)
    (c : Connection) (s : Socket) (r : ℕ)
    → s.room ≡ suc r
    → let reported = (handle_message wire worker now (task_result id result) c).1.master in
      let polled =
        handle_message wire client now'
          (get_task_result id)
          (record { master = reported; socket = s }) in
      (polled.0 ≡ ok go_on)
      × (polled.1.socket.sent ≡ s.sent ++ wire.to_vec (task_result id result) ∷ [])
      × (get id reported.pending_tasks ≡ none)
unfolding handle_message complete send send_frame
poll_after_result wire worker client now now' id result c s r e = ground (
  arith,
  eq_refl id,
  get-insert id id result c.master.completed_tasks,
  get-remove id id c.master.pending_tasks,
)

-- What a message leaves as the result of the task `id`, which had the result `old`.
abbrev pub result_after : NodeMessage → String → Option TaskResult → Option TaskResult
result_after (task_result j result) id old = if str_eq j id then some result else old
result_after (request_connection _) id old = old
result_after _ id old = old

completed-connect_nodes :
    (wire : Wire) (addr target_id : String) (c : Connection)
    → (connect_nodes wire addr target_id c).1.master.completed_tasks ≡ c.master.completed_tasks
unfolding connect_nodes
completed-connect_nodes wire addr target_id c = elim (Option-cases (allocate_port c.master).0) [
  | inl e ↦ rw (e, connect_nodes) (unfold allocate_port in ground arith)
  | inr (p, e) ↦
      rw (e, connect_nodes)
        (rw (master-announce wire p _ _) (unfold allocate_port modify_node in ground arith))
]

-- Only a `TaskResult` changes the completed tasks, and only at its own id: no other message, of
-- whatever client, withdraws or replaces a result.
pub get-completed-handle_message :
    (wire : Wire) (addr : String) (now : ℕ) (msg : NodeMessage) (c : Connection) (id : String)
    → get id (handle_message wire addr now msg c).1.master.completed_tasks
      ≡ result_after msg id (get id c.master.completed_tasks)
unfolding handle_message submit modify_node
get-completed-handle_message wire addr now (request_connection t) c id =
    ap (get id) (completed-connect_nodes wire addr t c)
get-completed-handle_message wire addr now (task_result j result) c id =
    unfold complete in get-insert j id result c.master.completed_tasks
get-completed-handle_message wire addr now get_connected_nodes c id =
    ap (λ (m : MasterNode). get id m.completed_tasks) (master-send-pure _ go_on c)
get-completed-handle_message wire addr now (get_task_result j) c id =
    ap (λ (m : MasterNode). get id m.completed_tasks) (master-send-pure _ go_on c)
get-completed-handle_message wire addr now heartbeat c id =
    ap (λ (m : MasterNode). get id m.completed_tasks) (master-send-pure _ go_on _)
get-completed-handle_message wire addr now (submit_task j task) c id =
    ap (λ (m : MasterNode). get id m.completed_tasks) (master-send-pure _ go_on _)
get-completed-handle_message wire addr now (register_role role) c id = unfold modify_node in refl
get-completed-handle_message wire addr now disconnect c id = unfold release_port remove_node in refl
get-completed-handle_message wire addr now _ c id = refl

authenticate_refuses :
    (wire : Wire) (peers : PeerFormat) (token addr : String) (now : ℕ) (received : String)
    (incoming : List Arrival)
    → received ≢ "MASTER_SYNC"
    → received ≢ token
    → authenticate wire peers token addr now received incoming ≡ send invalid_token
unfolding authenticate
authenticate_refuses wire peers token addr now received incoming not_peer not_token =
    elim (Bool-cases (str_eq received "MASTER_SYNC")) [
      | inl p ↦ absurd (not_peer ((eq_iff received "MASTER_SYNC").0 p))
      | inr p ↦ elim (Bool-cases (str_eq received token)) [
        | inl q ↦ absurd (not_token ((eq_iff received token).0 q))
        | inr q ↦ rw (p, q)
      ]
    ]

master-send : (c : Connection) → (send invalid_token c).1.master ≡ c.master
unfolding send
master-send c = refl

-- What a first frame says that is neither the token nor the word of another master; one that is not
-- UTF-8 says nothing.
abbrev pub IsForeign : String → Option String → Type 0
IsForeign token none = Unit {0}
IsForeign token (some text) = (trim text ≢ "MASTER_SYNC") × (trim text ≢ token)

abbrev pub refusal : Option String → Connection → Result (Unit {0}) × Connection
refusal none c = (err utf8_error, c)
refusal (some text) c = send invalid_token c

-- Unless its first frame is the token or announces a master, a connection changes nothing of the
-- master: it is sent the refusal, or nothing where the frame is not UTF-8, and nothing more of it is
-- read.
pub handle_connection_refuses :
    (wire : Wire) (peers : PeerFormat) (token addr : String) (a : Arrival) (incoming : List Arrival)
    (c : Connection)
    → IsForeign token (wire.from_utf8 a.payload)
    → let after = handle_connection wire peers token addr (a ∷ incoming) c in
      (after.1.master ≡ c.master) × (after ≡ refusal (wire.from_utf8 a.payload) c)
unfolding handle_connection
handle_connection_refuses wire peers token addr a incoming c foreign =
    elim (Option-cases (wire.from_utf8 a.payload)) [
      | inl e ↦ rw (e, handle_connection) (refl, refl)
      | inr (text, e) ↦
          let other : IsForeign token (some text) = subst (IsForeign token) e foreign in
          let refused : handle_connection wire peers token addr (a ∷ incoming) c
              ≡ send invalid_token c =
            rw (e, handle_connection)
              (rw (
                authenticate_refuses wire peers token addr a.now (trim text) incoming other.0
                  other.1)) in
          (
            ap (λ (q : Result (Unit {0}) × Connection). q.1.master) refused ∙ master-send c,
            refused ∙ sym (ap (λ o. refusal o c) e),
          )
    ]

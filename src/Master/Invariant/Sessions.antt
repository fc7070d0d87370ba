-- ===== src/Master/Invariant/Sessions.antt =====
-- The handlers and the session of a client keep the invariant, whatever the client sends and
-- whichever writes fail; so does the removal of dead nodes.
use cpcluster.Prelude.{
  ℕ, ◌≡◌, refl, sym, subst, String, Option, none, some, List, [], ◌∷◌, arith, Option-cases, inl,
  inr,
}
use cpcluster.Prelude.Action.{Action, proceed_inv, ◌>>◌, pure}
use cpcluster.Prelude.Dict.{Dict}
use cpcluster.Prelude.Dict.Table.{IsTable, insert-IsTable, remove-IsTable}
use cpcluster.Common.Protocol.{
  Bytes, Task, NodeMessage, request_connection, get_connected_nodes, submit_task, get_task_result,
  disconnect, heartbeat, task_result, register_role,
}
use cpcluster.Common.Wire.{Wire, send_frame}
use cpcluster.Master.State.{NodeInfo, PendingTask, MasterNode}
use cpcluster.Master.Connection.{Connection, modify, send}
use cpcluster.Master.Ports.{allocate_port}
use cpcluster.Master.Dispatch.{send_pending_tasks}
use cpcluster.Master.Cleanup.{
  requeue, requeue_tasks_of, remove_dead, remove_all_dead, cleanup_dead_nodes,
}
use cpcluster.Master.Session.{
  Arrival, Flow, go_on, stop, accept_node, remove_node, announce, connect_nodes, unless_stopped,
  handle_message, serve, serve_rest, serve_client, set_role, beat,
}
use cpcluster.Master.Invariant.{IsSound}
use cpcluster.Master.Invariant.Measures.{held-remove-le, runs-remove-le}
use cpcluster.Master.Invariant.Steps.{
  spawn_save_state-IsSound, allocate_port-IsSound, set_port-IsSound, release_port-IsSound,
  accept_node-IsSound, remove_node-IsSound, modify_node-IsSound, complete-IsSound, submit-IsSound,
  send_pending_tasks-IsSound,
}

abbrev HasSound : Connection → Type 0
HasSound c = IsSound c.master

-- A write and what is returned after it leave the master alone.
pub master-send-pure {ℓ} :
    {A : Type ℓ} (b : Bytes) (x : A) (c : Connection) → ((send b >> pure x) c).1.master ≡ c.master
unfolding send send_frame
master-send-pure b x c = ground arith

pub master-announce :
    (wire : Wire) (port : ℕ) (target : Option String) (c : Connection)
    → (announce wire port target c).1.master ≡ c.master
unfolding announce
master-announce wire port none c = refl
master-announce wire port (some a) c = master-send-pure _ go_on c

module _ (wire : Wire) (addr : String) where
  connect_nodes-IsSound :
      (target_id : String) (c : Connection)
      → IsSound c.master
      → IsSound (connect_nodes wire addr target_id c).1.master
  unfolding connect_nodes
  connect_nodes-IsSound target_id c s = elim (Option-cases (allocate_port c.master).0) [
    | inl e ↦ rw (e, connect_nodes) (allocate_port-IsSound s)
    | inr (p, e) ↦
        rw (e, connect_nodes)
          (subst IsSound (sym (master-announce wire p _ _)) (set_port-IsSound c.master addr p s e))
  ]

  pub handle_message-IsSound :
      (now : ℕ) (msg : NodeMessage) (c : Connection)
      → IsSound c.master
      → IsSound (handle_message wire addr now msg c).1.master
  unfolding handle_message
  handle_message-IsSound now (register_role role) c s =
      modify_node-IsSound addr s (set_role role) (λ n. refl) (λ n. refl)
  handle_message-IsSound now get_connected_nodes c s =
      subst IsSound (sym (master-send-pure _ go_on c)) s
  handle_message-IsSound now (request_connection target_id) c s =
      connect_nodes-IsSound target_id c s
  handle_message-IsSound now (submit_task id task) c s =
      subst IsSound (sym (master-send-pure _ go_on _)) (submit-IsSound id task s)
  handle_message-IsSound now (get_task_result id) c s =
      subst IsSound (sym (master-send-pure _ go_on c)) s
  handle_message-IsSound now disconnect c s = remove_node-IsSound addr (release_port-IsSound addr s)
  handle_message-IsSound now heartbeat c s =
      subst IsSound (sym (master-send-pure _ go_on _))
        (modify_node-IsSound addr s (beat now) (λ n. refl) (λ n. refl))
  handle_message-IsSound now (task_result id result) c s = complete-IsSound addr s id result
  handle_message-IsSound now _ c s = s

  unless_stopped-IsSound :
      (flow : Flow) (rest : Action Connection (Unit {0})) (c : Connection)
      → IsSound c.master
      → IsSound (rest c).1.master
      → IsSound (unless_stopped flow rest c).1.master
  unless_stopped-IsSound stop rest c s t = s
  unless_stopped-IsSound go_on rest c s t = t

  serve-IsSound :
      (incoming : List Arrival) (c : Connection)
      → IsSound c.master
      → IsSound (serve wire addr incoming c).1.master
  unfolding serve
  serve-IsSound [] c s = s
  serve-IsSound (a ∷ incoming) c s = elim (Option-cases (wire.from_slice a.payload)) [
    | inl e ↦ rw (e, serve) s
    | inr (msg, e) ↦
        rw (e, serve)
          (proceed_inv HasSound _ (handle_message wire addr a.now msg c).0 _
            (handle_message-IsSound a.now msg c s)
            (λ flow q. unless_stopped-IsSound flow _ _ (handle_message-IsSound a.now msg c s) (
              serve-IsSound incoming _
                (send_pending_tasks-IsSound wire addr _ (handle_message-IsSound a.now msg c s)))))
  ]

  serve_rest-IsSound :
      (incoming : List Arrival) (c : Connection)
      → IsSound c.master
      → IsSound (serve_rest wire addr incoming c).1.master
  unfolding serve_rest
  serve_rest-IsSound incoming c s =
      let served = serve wire addr incoming c in
      let u : IsSound served.1.master = serve-IsSound incoming c s in
      proceed_inv HasSound (λ (_ : Unit {0}). modify (remove_node addr)) served.0 served.1 u
        (λ _ _. remove_node-IsSound addr u)

  -- The whole session of an authenticated client, from its first entry in the table to its removal,
  -- keeps the invariant: whatever it sends, and wherever its writes begin to fail.
  pub serve_client-IsSound :
      (now : ℕ) (incoming : List Arrival) (c : Connection)
      → IsSound c.master
      → IsSound (serve_client wire addr now incoming c).1.master
  unfolding serve_client
  serve_client-IsSound now incoming c s =
      let opened : Connection = record c { master = accept_node addr now c.master } in
      serve_rest-IsSound incoming (send_pending_tasks wire addr opened).1
        (send_pending_tasks-IsSound wire addr opened (accept_node-IsSound addr s now))

requeue-IsTable :
    (active : Dict Task) (pending : Dict PendingTask)
    → IsTable pending
    → IsTable (requeue active pending)
unfolding requeue
requeue-IsTable [] pending t = t
requeue-IsTable ((id, task) ∷ active) pending t =
    requeue-IsTable active _ (insert-IsTable id _ pending t)

requeue_tasks_of-IsTable :
    (node : Option NodeInfo) (pending : Dict PendingTask)
    → IsTable pending
    → IsTable (requeue_tasks_of node pending)
requeue_tasks_of-IsTable none pending t = t
requeue_tasks_of-IsTable (some n) pending t = requeue-IsTable n.active_tasks pending t

pub remove_dead-IsSound :
    (addr : String) (m : MasterNode) → IsSound m → IsSound (remove_dead addr m)
unfolding remove_dead
remove_dead-IsSound addr m s = release_port-IsSound addr (record {
  ports = λ p. omega (arith, s.ports p, held-remove-le p addr m.connected_nodes);
  once = λ id. omega (arith, s.once id, runs-remove-le id addr m.connected_nodes);
  nodes = remove-IsTable addr m.connected_nodes s.nodes;
  pending = requeue_tasks_of-IsTable _ m.pending_tasks s.pending;
})

remove_all_dead-IsSound :
    (stale : List String) (m : MasterNode) → IsSound m → IsSound (remove_all_dead stale m)
unfolding remove_all_dead
remove_all_dead-IsSound [] m s = s
remove_all_dead-IsSound (addr ∷ stale) m s =
    remove_all_dead-IsSound stale _ (remove_dead-IsSound addr m s)

-- So does the removal of dead nodes.
pub cleanup_dead_nodes-IsSound :
    (now : ℕ) (m : MasterNode) → IsSound m → IsSound (cleanup_dead_nodes now m)
unfolding cleanup_dead_nodes
cleanup_dead_nodes-IsSound now m s = spawn_save_state-IsSound (remove_all_dead-IsSound _ m s)

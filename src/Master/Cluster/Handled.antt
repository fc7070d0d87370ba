-- ===== src/Master/Cluster/Handled.antt =====
-- A task that is known stays known when tasks are sent and messages are handled.
use cpcluster.Prelude.{ℕ, ◌≡◌, refl, sym, subst, ◌∙◌, String, false, Option-cases, inl, inr}
use cpcluster.Prelude.Dict.{get}
use cpcluster.Prelude.Dict.Table.{IsTable}
use cpcluster.Common.Protocol.{
  NodeMessage, request_connection, get_connected_nodes, submit_task, get_task_result, disconnect,
  heartbeat, task_result, register_role,
}
use cpcluster.Common.Wire.{Wire}
use cpcluster.Master.Connection.{Connection}
use cpcluster.Master.Ports.{allocate_port, release_port}
use cpcluster.Master.Dispatch.{worker_role, enough_fuel, send_pending_tasks}
use cpcluster.Master.Dispatch.Loop.{send_loop_inv}
use cpcluster.Master.Session.{handle_message, connect_nodes, set_role, set_port, beat, go_on}
use cpcluster.Master.Cluster.Kept.{runs_at}
use cpcluster.Master.Invariant.Sessions.{master-send-pure, master-announce}
use cpcluster.Master.Cluster.Known.{
  IsKnown, Kept, remove_node-IsKnown, taken-Kept, returned-Kept, complete-IsKnown,
  same_tasks-IsKnown, allocate_port-IsKnown, submit-IsKnown, release_port-IsKnown,
  release_port-IsTable, runs_at-release_port,
}

module _ (id : String) where
  module _ (wire : Wire) (addr : String) where
    connect_nodes-IsKnown :
        (target_id : String) (c : Connection)
        → (IsKnown id) c.master
        → (IsKnown id) (connect_nodes wire addr target_id c).1.master
    unfolding connect_nodes
    connect_nodes-IsKnown target_id c k = elim (Option-cases (allocate_port c.master).0) [
      | inl e ↦ rw (e, connect_nodes) (allocate_port-IsKnown id c.master k)
      | inr (p, e) ↦
          rw (e, connect_nodes)
            (subst (IsKnown id) (sym (master-announce wire p _ _)) (
              same_tasks-IsKnown id addr (set_port p) (allocate_port c.master).1 (λ n. refl)
                (allocate_port-IsKnown id c.master k)))
    ]

    pub send_pending_tasks-IsKnown :
        (c : Connection)
        → (IsKnown id) c.master
        → (IsKnown id) (send_pending_tasks wire addr c).1.master
    unfolding send_pending_tasks
    send_pending_tasks-IsKnown c k = elim (Option-cases (get addr c.master.connected_nodes)) [
      | inl e ↦ rw (e, send_pending_tasks) k
      | inr (n, e) ↦ elim (Option-cases (worker_role (get addr c.master.connected_nodes))) [
        | inl r ↦ rw (r, send_pending_tasks) k
        | inr (role, r) ↦
            rw (r, send_pending_tasks)
              ((send_loop_inv wire addr role (Kept id addr)
                (λ c' i p r' q _. taken-Kept id addr i p c' _ q)
                (λ c' i p q _. returned-Kept id addr i p c' q) (enough_fuel c.master) c
                (record { node = n; connected = e; known = k })).known)
      ]
    ]

    pub handle_message-IsKnown :
        (now : ℕ) (msg : NodeMessage) (c : Connection)
        → IsTable c.master.connected_nodes
        → (msg ≡ disconnect → runs_at addr id c.master ≡ false)
        → (IsKnown id) c.master
        → (IsKnown id) (handle_message wire addr now msg c).1.master
    unfolding handle_message
    handle_message-IsKnown now (register_role role) c t h k =
        same_tasks-IsKnown id addr (set_role role) c.master (λ n. refl) k
    handle_message-IsKnown now get_connected_nodes c t h k =
        subst (IsKnown id) (sym (master-send-pure _ go_on c)) k
    handle_message-IsKnown now (request_connection target_id) c t h k =
        connect_nodes-IsKnown target_id c k
    handle_message-IsKnown now (submit_task id' task) c t h k =
        subst (IsKnown id) (sym (master-send-pure _ go_on _))
          (submit-IsKnown id id' task c.master k)
    handle_message-IsKnown now (get_task_result id') c t h k =
        subst (IsKnown id) (sym (master-send-pure _ go_on c)) k
    handle_message-IsKnown now disconnect c t h k =
        remove_node-IsKnown id addr (release_port addr c.master)
          (release_port-IsTable id addr c.master t) (runs_at-release_port id addr c.master ∙ h refl)
          (release_port-IsKnown id addr c.master k)
    handle_message-IsKnown now heartbeat c t h k =
        subst (IsKnown id) (sym (master-send-pure _ go_on _))
          (same_tasks-IsKnown id addr (beat now) c.master (λ n. refl) k)
    handle_message-IsKnown now (task_result id' result) c t h k =
        complete-IsKnown id addr id' result c.master k
    handle_message-IsKnown now _ c t h k = k

-- ===== src/Master/Dispatch/Sent.antt =====
-- What `send_pending_tasks` writes to the socket.
use mathlib.Core.List.{append_assoc, append-nil, map-append}
use cpcluster.Prelude.{
  ℕ, ok, ◌≡◌, sym, ◌∙◌, ap, String, true, none, some, List, [], ◌∷◌, ◌++◌, map, ◌⊎◌, inl, inr,
  arith, All, All-append, eq_iff, Option-cases,
}
use cpcluster.Prelude.Dict
use cpcluster.Prelude.Dict.{Dict, get, get-insert, get-remove}
use cpcluster.Prelude.Dict.Table.{IsTable, insert-IsTable, remove-IsTable, get_found, find-holds}
use cpcluster.Common.Protocol.{Bytes, NodeRole, role_eq_iff, assign_task}
use cpcluster.Common.Wire.{Wire}
use cpcluster.Master.State.{PendingTask}
use cpcluster.Master.Connection.{Connection}
use cpcluster.Master.Dispatch.{
  is_for, role_for_task, is_eligible, eligible_task, assign, unassign, worker_role,
  send_pending_tasks, enough_fuel,
}
use cpcluster.Master.Dispatch.Loop.{returned, delivered, send_loop_inv}

-- A task that the table `pending` holds, of the node's role, meant for it or for any node.
abbrev pub IsSuitable : String → NodeRole → Dict PendingTask → String × PendingTask → Type 0
IsSuitable addr role pending (id, p) =
    (role_for_task p.task ≡ role) × (is_for addr p.target ≡ true) × (get id pending ≡ some p)

abbrev pub assignment : Wire → String × PendingTask → Bytes
assignment wire (id, p) = wire.to_vec (assign_task id p.task)

module _ (wire : Wire) (addr : String) (role : NodeRole) (before : Connection) where
  -- Since `before` the socket was sent assignments of suitable tasks, and nothing was added to the
  -- pending tasks.
  pub record Sends (c : Connection) : Type 0 where
    pub batch : List (String × PendingTask)
    pub sent : c.socket.sent ≡ before.socket.sent ++ map (assignment wire) batch
    pub suitable : All (IsSuitable addr role before.master.pending_tasks) batch
    pub table : IsTable c.master.pending_tasks
    pub only :
        (k : String) (v : PendingTask)
        → get k c.master.pending_tasks ≡ some v
        → get k before.master.pending_tasks ≡ some v

  module _ (c : Connection) (id : String) (p : PendingTask) (s : Sends c)
      (found : eligible_task addr role c.master ≡ some (id, p)) where
    was_pending : get id c.master.pending_tasks ≡ some p
    was_pending = get_found _ c.master.pending_tasks id p s.table found

    found-IsSuitable : IsSuitable addr role before.master.pending_tasks (id, p)
    unfolding is_eligible
    found-IsSuitable = ground (
      arith,
      find-holds (is_eligible addr role c.master.connected_nodes) c.master.pending_tasks (id, p)
          found,
      role_eq_iff (role_for_task p.task) role,
      s.only id p was_pending,
    )

    delivered-Sends : (r : ℕ) → Sends (delivered wire addr role id p r c)
    unfolding assign
    delivered-Sends r = record {
      batch = s.batch ++ (id, p) ∷ [];
      sent =
          ap (λ l. l ++ assignment wire (id, p) ∷ []) s.sent
          ∙ append_assoc before.socket.sent _ _
          ∙ ap (λ l. before.socket.sent ++ l) (sym (map-append (assignment wire) s.batch _));
      suitable = All-append _ s.batch _ s.suitable (found-IsSuitable, tt);
      table = remove-IsTable id _ s.table;
      only = λ k v h. s.only k v (ground (arith, h, get-remove id k c.master.pending_tasks));
    }

    returned-Sends : Sends (record { master = returned addr id p c.master; socket = c.socket })
    unfolding assign unassign
    returned-Sends = record {
      batch = s.batch;
      sent = s.sent;
      suitable = s.suitable;
      table = insert-IsTable id p _ (remove-IsTable id _ s.table);
      only = λ k v h. s.only k v (
          ground (
            arith,
            h,
            was_pending,
            eq_iff id k,
            get-insert id k p (Dict.remove id c.master.pending_tasks),
            get-remove id k c.master.pending_tasks,
          ));
    }

-- A worker is sent nothing but assignments of tasks that were pending, have its role, and name it or
-- no node as their target; a client that has sent no heartbeat is sent nothing.
pub send_pending_tasks-Sends :
    (wire : Wire) (addr : String) (c : Connection)
    → IsTable c.master.pending_tasks
    → ((worker_role (Dict.get addr c.master.connected_nodes) ≡ none)
        × (send_pending_tasks wire addr c ≡ (ok tt, c)))
      ⊎ ((role : NodeRole) × (worker_role (Dict.get addr c.master.connected_nodes) ≡ some role)
          × Sends wire addr role c (send_pending_tasks wire addr c).1)
unfolding send_pending_tasks
send_pending_tasks-Sends wire addr c table =
    elim (Option-cases (worker_role (Dict.get addr c.master.connected_nodes))) [
      | inl e ↦ inl (e, rw (e, send_pending_tasks))
      | inr (role, e) ↦ inr (
        role,
        e,
        rw (e, send_pending_tasks)
            (send_loop_inv wire addr role (Sends wire addr role c)
              (λ c' id p r s found. delivered-Sends wire addr role c c' id p s found r)
              (λ c' id p s found. returned-Sends wire addr role c c' id p s found)
              (enough_fuel c.master) c
              (record {
                batch = [];
                sent = sym (append-nil _);
                suitable = tt;
                table = table;
                only = λ k v h. h;
              })),
      )
    ]

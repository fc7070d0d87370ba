-- ===== src/Master/Dispatch/Keeps.antt =====
-- `send_pending_tasks` loses no task, also when a write fails half way.
use cpcluster.Prelude.{
  ◌≡◌, String, true, false, some, [], ◌∷◌, ◌⊎◌, inl, inr, arith, eq_iff, Option-cases,
}
use cpcluster.Prelude.Dict
use cpcluster.Prelude.Dict.{Dict, get, get-insert, get-remove, get-and_modify_self}
use cpcluster.Prelude.Dict.Table.{IsTable, insert-IsTable, remove-IsTable, get_found, find-holds}
use cpcluster.Common.Protocol.{NodeRole, Task}
use cpcluster.Common.Wire.{Wire}
use cpcluster.Master.State.{NodeInfo, PendingTask, MasterNode}
use cpcluster.Master.Connection.{Connection}
use cpcluster.Master.Dispatch.{
  is_active, is_eligible, eligible_task, assign, unassign, add_active, remove_active, worker_role,
  send_pending_tasks, enough_fuel,
}
use cpcluster.Master.Dispatch.Loop.{taken, returned, send_loop_inv}

-- A task that a connected node runs is active.
pub is_active_of_get :
    (addr id : String) (task : Task) (nodes : Dict NodeInfo) (n : NodeInfo)
    → get addr nodes ≡ some n
    → get id n.active_tasks ≡ some task
    → is_active id nodes ≡ true
unfolding get
is_active_of_get addr id task [] n h e = ground arith
is_active_of_get addr id task ((a, n') ∷ nodes) n h e =
    ground (arith, is_active_of_get addr id task nodes n)

-- A task that was found is not active at any node.
pub not-is_active_found :
    (addr : String) (role : NodeRole) (m : MasterNode) (id : String) (p : PendingTask)
    → eligible_task addr role m ≡ some (id, p)
    → is_active id m.connected_nodes ≡ false
unfolding is_eligible
not-is_active_found addr role m id p e =
    ground (arith, find-holds (is_eligible addr role m.connected_nodes) m.pending_tasks (id, p) e)

-- The task `p` is still pending under `id`, or is active at `addr`.
pub record Keeps (addr id : String) (p : PendingTask) (m : MasterNode) : Type 0 where
  pub table : IsTable m.pending_tasks
  pub node : NodeInfo
  pub connected : get addr m.connected_nodes ≡ some node
  pub kept : (get id m.pending_tasks ≡ some p) ⊎ (get id node.active_tasks ≡ some p.task)

module _ (addr : String) (role : NodeRole) (m : MasterNode) (id id' : String) (p p' : PendingTask)
    (found : eligible_task addr role m ≡ some (id', p')) where
  taken-Keeps : Keeps addr id p m → Keeps addr id p (taken addr id' p' m)
  unfolding assign
  taken-Keeps k = record {
    table = remove-IsTable id' m.pending_tasks k.table;
    node = add_active id' p'.task k.node;
    connected = get-and_modify_self addr _ m.connected_nodes k.node k.connected;
    kept = ground (
      arith,
      k.kept,
      eq_iff id' id,
      get-remove id' id m.pending_tasks,
      get-insert id' id p'.task k.node.active_tasks,
      get_found (is_eligible addr role m.connected_nodes) m.pending_tasks id' p' k.table found,
      is_active_of_get addr id p.task m.connected_nodes k.node k.connected,
      not-is_active_found addr role m id' p' found,
    );
  }

  returned-Keeps : Keeps addr id p m → Keeps addr id p (returned addr id' p' m)
  unfolding assign unassign
  returned-Keeps k = record {
    table =
        insert-IsTable id' p' (Dict.remove id' m.pending_tasks)
          (remove-IsTable id' m.pending_tasks k.table);
    node = remove_active id' (add_active id' p'.task k.node);
    connected =
        get-and_modify_self addr _ _ _
          (get-and_modify_self addr _ m.connected_nodes k.node k.connected);
    kept = ground (
      arith,
      k.kept,
      eq_iff id' id,
      get-insert id' id p' (Dict.remove id' m.pending_tasks),
      get-remove id' id m.pending_tasks,
      get-remove id' id (Dict.insert id' p'.task k.node.active_tasks),
      get-insert id' id p'.task k.node.active_tasks,
      get_found (is_eligible addr role m.connected_nodes) m.pending_tasks id' p' k.table found,
      is_active_of_get addr id p.task m.connected_nodes k.node k.connected,
      not-is_active_found addr role m id' p' found,
    );
  }

-- Every task that was pending is afterwards pending, unchanged, or active at the node, whether or not
-- all writes succeeded.
pub send_pending_tasks-Keeps :
    (wire : Wire) (addr : String) (c : Connection) (node : NodeInfo) (id : String) (p : PendingTask)
    → IsTable c.master.pending_tasks
    → get addr c.master.connected_nodes ≡ some node
    → get id c.master.pending_tasks ≡ some p
    → Keeps addr id p (send_pending_tasks wire addr c).1.master
unfolding send_pending_tasks
send_pending_tasks-Keeps wire addr c node id p table connected pending =
    elim (Option-cases (worker_role (Dict.get addr c.master.connected_nodes))) [
      | inl e ↦ rw (e, send_pending_tasks) start
      | inr (role, e) ↦
          rw (e, send_pending_tasks)
            (send_loop_inv wire addr role (λ c. Keeps addr id p c.master)
              (λ c id' p' r k found. taken-Keeps addr role c.master id id' p p' found k)
              (λ c id' p' k found. returned-Keeps addr role c.master id id' p p' found k)
              (enough_fuel c.master) c start)
    ]
  where
    start : Keeps addr id p c.master
    start = record { table = table; node = node; connected = connected; kept = inl pending }

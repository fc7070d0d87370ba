-- ===== src/Master/Cluster/Known.antt =====
-- A task that is pending, active or completed somewhere is so after each operation of the master.
use cpcluster.Prelude.{
  ℕ, ◌≤◌, ◌≡◌, refl, String, false, ◌||◌, Option, none, some, List, [], ◌∷◌, arith, eq_iff, eq_refl,
}
use cpcluster.Prelude.Dict
use cpcluster.Prelude.Dict.{
  Dict, get, get-insert, get-remove, get-and_modify, get-and_modify_self, contains_key,
}
use cpcluster.Prelude.Dict.Table.{IsTable, and_modify-IsTable}
use cpcluster.Common.Protocol.{Task, TaskResult}
use cpcluster.Common.Wire.{Socket}
use cpcluster.Master.State.{NodeInfo, PendingTask, MasterNode, spawn_save_state}
use cpcluster.Master.Connection.{Connection}
use cpcluster.Master.Ports.{allocate_port, release_port, without_port}
use cpcluster.Master.Dispatch.{add_active, remove_active, assign, unassign}
use cpcluster.Master.Dispatch.Loop.{taken, returned}
use cpcluster.Master.Cleanup.{requeue_tasks_of, remove_dead, remove_all_dead, cleanup_dead_nodes}
use cpcluster.Master.Cleanup.Requeue.{contains_key-requeue}
use cpcluster.Master.Session.{new_node, accept_node, remove_node, modify_node, submit, complete}
use cpcluster.Master.Cluster.Kept.{
  active_of, runs_at, places, runs-remove-ge, runs-insert-ge, runs-remove_active-other,
  runs-add_active-ge, runs-add_active_self,
}
use cpcluster.Master.Invariant.{IsSound}
use cpcluster.Master.Invariant.Measures.{runs-and_modify_same}
use cpcluster.Master.Invariant.Sessions.{remove_dead-IsSound}

module _ (id : String) where
  abbrev pub IsKnown : MasterNode → Type 0
  IsKnown m = 1 ≤ places id m

  -- The node at `addr` is connected, and the task is known.
  pub record Kept (addr : String) (c : Connection) : Type 0 where
    pub node : NodeInfo
    pub connected : get addr c.master.connected_nodes ≡ some node
    pub known : IsKnown c.master

  taken-IsKnown :
      (addr id' : String) (p : PendingTask) (m : MasterNode) (n : NodeInfo)
      → get addr m.connected_nodes ≡ some n
      → IsKnown m
      → IsKnown (taken addr id' p m)
  unfolding assign
  taken-IsKnown addr id' p m n h k = ground (
    arith,
    h,
    k,
    eq_iff id' id,
    get-remove id' id m.pending_tasks,
    runs-add_active-ge id addr id' p.task m.connected_nodes,
    runs-add_active_self id addr p.task m.connected_nodes n h,
  )

  returned-IsKnown :
      (addr id' : String) (p : PendingTask) (m : MasterNode)
      → IsKnown m
      → IsKnown (returned addr id' p m)
  unfolding assign unassign
  returned-IsKnown addr id' p m k = ground (
    arith,
    k,
    eq_iff id' id,
    get-remove id' id m.pending_tasks,
    get-insert id' id p (Dict.remove id' m.pending_tasks),
    runs-add_active-ge id addr id' p.task m.connected_nodes,
    runs-remove_active-other id addr id'
        (Dict.and_modify addr (add_active id' p.task) m.connected_nodes),
  )

  pub taken-Kept :
      (addr id' : String) (p : PendingTask) (c : Connection) (socket : Socket)
      → Kept addr c
      → Kept addr (record { master = taken addr id' p c.master; socket = socket })
  unfolding assign
  taken-Kept addr id' p c socket k = record {
    node = add_active id' p.task k.node;
    connected =
        get-and_modify_self addr (add_active id' p.task) c.master.connected_nodes k.node
          k.connected;
    known = taken-IsKnown addr id' p c.master k.node k.connected k.known;
  }

  pub returned-Kept :
      (addr id' : String) (p : PendingTask) (c : Connection)
      → Kept addr c
      → Kept addr (record { master = returned addr id' p c.master; socket = c.socket })
  unfolding assign unassign
  returned-Kept addr id' p c k = record {
    node = remove_active id' (add_active id' p.task k.node);
    connected = get-and_modify_self addr (remove_active id') _ (add_active id' p.task k.node) (
        get-and_modify_self addr (add_active id' p.task) c.master.connected_nodes k.node
          k.connected);
    known = returned-IsKnown addr id' p c.master k.known;
  }

  pub accept_node-IsKnown :
      (addr : String) (now : ℕ) (m : MasterNode)
      → runs_at addr id m ≡ false
      → IsKnown m
      → IsKnown (accept_node addr now m)
  unfolding accept_node spawn_save_state
  accept_node-IsKnown addr now m r k =
      ground (arith, r, k, runs-insert-ge id addr (new_node addr now) m.connected_nodes)

  pub remove_node-IsKnown :
      (addr : String) (m : MasterNode)
      → IsTable m.connected_nodes
      → runs_at addr id m ≡ false
      → IsKnown m
      → IsKnown (remove_node addr m)
  unfolding remove_node spawn_save_state
  remove_node-IsKnown addr m t r k =
      ground (arith, r, k, runs-remove-ge id addr m.connected_nodes t)

  pub complete-IsKnown :
      (addr id' : String) (result : TaskResult) (m : MasterNode)
      → IsKnown m
      → IsKnown (complete addr id' result m)
  unfolding complete spawn_save_state
  complete-IsKnown addr id' result m k = ground (
    arith,
    k,
    eq_iff id' id,
    get-remove id' id m.pending_tasks,
    get-insert id' id result m.completed_tasks,
    runs-remove_active-other id addr id' m.connected_nodes,
  )

  contains_key-requeue_tasks_of :
      (node : Option NodeInfo) (pending : Dict PendingTask)
      → contains_key id (requeue_tasks_of node pending)
        ≡ (contains_key id (active_of node) || contains_key id pending)
  unfolding get
  contains_key-requeue_tasks_of none pending = refl
  contains_key-requeue_tasks_of (some n) pending = contains_key-requeue id n.active_tasks pending

  remove_dead-IsKnown :
      (addr : String) (m : MasterNode)
      → IsTable m.connected_nodes
      → IsKnown m
      → IsKnown (remove_dead addr m)
  unfolding remove_dead release_port spawn_save_state
  remove_dead-IsKnown addr m t k = ground (
    arith,
    k,
    runs-remove-ge id addr m.connected_nodes t,
    contains_key-requeue_tasks_of (get addr m.connected_nodes) m.pending_tasks,
    runs-and_modify_same id addr without_port (Dict.remove addr m.connected_nodes) (λ n. refl),
  )

  remove_all_dead-IsKnown :
      (stale : List String) (m : MasterNode)
      → IsSound m
      → IsKnown m
      → IsKnown (remove_all_dead stale m)
  unfolding remove_all_dead
  remove_all_dead-IsKnown [] m s k = k
  remove_all_dead-IsKnown (addr ∷ stale) m s k =
      remove_all_dead-IsKnown stale _ (remove_dead-IsSound addr m s)
        (remove_dead-IsKnown addr m s.nodes k)

  pub same_tasks-IsKnown :
      (addr : String) (f : NodeInfo → NodeInfo) (m : MasterNode)
      → ((n : NodeInfo) → (f n).active_tasks ≡ n.active_tasks)
      → IsKnown m
      → IsKnown (modify_node addr f m)
  unfolding modify_node
  same_tasks-IsKnown addr f m h k =
      ground (arith, k, runs-and_modify_same id addr f m.connected_nodes h)

  pub allocate_port-IsKnown : (m : MasterNode) → IsKnown m → IsKnown (allocate_port m).1
  unfolding allocate_port spawn_save_state
  allocate_port-IsKnown m k = ground (arith, k)

  pub submit-IsKnown :
      (id' : String) (task : Task) (m : MasterNode) → IsKnown m → IsKnown (submit id' task m)
  unfolding submit spawn_save_state
  submit-IsKnown id' task m k =
      ground (arith, k, get-insert id' id (record { task = task; target = none }) m.pending_tasks)

  pub release_port-IsKnown :
      (addr : String) (m : MasterNode) → IsKnown m → IsKnown (release_port addr m)
  unfolding release_port spawn_save_state
  release_port-IsKnown addr m k =
      ground (arith, k, runs-and_modify_same id addr without_port m.connected_nodes (λ n. refl))

  pub release_port-IsTable :
      (addr : String) (m : MasterNode)
      → IsTable m.connected_nodes
      → IsTable (release_port addr m).connected_nodes
  unfolding release_port spawn_save_state
  release_port-IsTable addr m t = and_modify-IsTable addr without_port m.connected_nodes t

  pub runs_at-release_port :
      (addr : String) (m : MasterNode) → runs_at addr id (release_port addr m) ≡ runs_at addr id m
  unfolding release_port spawn_save_state
  runs_at-release_port addr m =
      ground (arith, get-and_modify addr addr without_port m.connected_nodes, eq_refl addr)

  pub cleanup-IsKnown :
      (now : ℕ) (m : MasterNode) → IsSound m → IsKnown m → IsKnown (cleanup_dead_nodes now m)
  unfolding cleanup_dead_nodes spawn_save_state
  cleanup-IsKnown now m s k = remove_all_dead-IsKnown _ m s k

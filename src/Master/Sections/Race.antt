-- ===== src/Master/Sections/Race.antt =====
-- What can happen between the two locks of `send_pending_tasks`.
use cpcluster.Prelude.{ℕ, ◌≡◌, List, ◌++◌, String, Bool, ◌||◌, some, ◌∷◌}
use cpcluster.Prelude.Dict
use cpcluster.Prelude.Dict.{Dict, get, contains_key}
use cpcluster.Common.Protocol.{NodeRole}
use cpcluster.Master.State.{NodeInfo, PendingTask, MasterNode}
use cpcluster.Master.Dispatch.{worker_role, is_active, eligible_task, assign}
use cpcluster.Master.Cleanup.{requeue, stale_nodes, timeout_of}
use cpcluster.Master.Sections.{Flight, Between, Sections}

-- A task that is pending or completed, or active at a node.
abbrev pub knows : String → MasterNode → Bool
knows id m =
    contains_key id m.pending_tasks
    || is_active id m.connected_nodes
    || contains_key id m.completed_tasks

module _ (addr id : String) (p : PendingTask) (info : NodeInfo) (b : Between) where
  abbrev flight : Flight
  flight = record { addr = addr; id = id; pending = p }

  -- The master after the task was taken, the node was removed, its tasks were queued again, and the
  -- task was assigned to it.
  abbrev after_race : MasterNode
  after_race = assign addr id p.task (record b.master {
    connected_nodes = Dict.remove addr b.master.connected_nodes;
    pending_tasks = requeue info.active_tasks (Dict.remove id b.master.pending_tasks);
  })

  module _ (now : ℕ) (before after : List String) (role : NodeRole)
      (found : eligible_task addr role b.master ≡ some (id, p))
      (works : worker_role (get addr b.master.connected_nodes) ≡ some role)
      (connected : get addr b.master.connected_nodes ≡ some info)
      (dead : stale_nodes (timeout_of b.master) now b.master.connected_nodes ++ b.dead
        ≡ before ++ addr ∷ after) where
    -- The role is looked up, and the clean-up finds the node dead, before the task is taken.
    abbrev ready : Between
    ready = record b {
      dispatching = (addr, role) ∷ b.dispatching;
      dead = stale_nodes (timeout_of b.master) now b.master.connected_nodes ++ b.dead;
    }

    abbrev m1 : MasterNode
    m1 = record b.master { pending_tasks = Dict.remove id b.master.pending_tasks }

    abbrev b1 : Between
    b1 = record ready { master = m1; taken = flight ∷ b.taken }

    abbrev m2 : MasterNode
    m2 = record m1 { connected_nodes = Dict.remove addr m1.connected_nodes }

    abbrev b2 : Between
    b2 = record b1 { master = m2; dead = before ++ after; orphans = info.active_tasks ∷ b.orphans }

    abbrev b3 : Between
    b3 = record b2 {
      master = record m2 { pending_tasks = requeue info.active_tasks m2.pending_tasks };
      orphans = b.orphans;
    }

    abbrev b4 : Between
    b4 = record b3 { master = after_race; taken = b.taken; assigned = flight ∷ b.assigned }

    abbrev b5 : Between
    b5 = record b4 { assigned = b.assigned }

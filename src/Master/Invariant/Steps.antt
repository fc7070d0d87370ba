-- ===== src/Master/Invariant/Steps.antt =====
-- Each critical section of the master keeps the invariant.
use cpcluster.Prelude.{ℕ, ◌≡◌, refl, String, some, arith, eq_iff, Option-cases, inl, inr}
use cpcluster.Prelude.Dict
use cpcluster.Prelude.Dict.{Dict}
use cpcluster.Prelude.Dict.Table.{insert-IsTable, remove-IsTable, and_modify-IsTable}
use cpcluster.Common.Protocol.{Task, TaskResult, NodeRole}
use cpcluster.Common.Wire.{Wire}
use cpcluster.Master.State.{NodeInfo, PendingTask, MasterNode, spawn_save_state}
use cpcluster.Master.Connection.{Connection}
use cpcluster.Master.Ports.{allocate_port, release_port, without_port, port_of}
use cpcluster.Master.Dispatch.{
  eligible_task, assign, unassign, add_active, remove_active, worker_role, enough_fuel,
  send_pending_tasks,
}
use cpcluster.Master.Dispatch.Loop.{taken, returned, send_loop_inv}
use cpcluster.Master.Dispatch.Keeps.{not-is_active_found}
use cpcluster.Master.Session.{
  set_port, new_node, accept_node, remove_node, modify_node, submit, complete,
}
use cpcluster.Master.Invariant.{IsSound}
use cpcluster.Master.Invariant.Measures.{
  held-remove-le, held-and_modify_same, held-set_port-le, held-without_port, held-insert_new-le,
  runs-remove-le, runs-and_modify_same, runs-add_active-le, runs-remove_active-le,
  runs-insert_new-le, runs_inactive, count-give_back_port,
}

pub spawn_save_state-IsSound : {m : MasterNode} → IsSound m → IsSound (spawn_save_state m)
unfolding spawn_save_state
spawn_save_state-IsSound s = record {
  ports = s.ports;
  once = s.once;
  nodes = s.nodes;
  pending = s.pending;
}

pub allocate_port-IsSound : {m : MasterNode} → IsSound m → IsSound (allocate_port m).1
unfolding allocate_port
allocate_port-IsSound {m} s = record {
  ports = λ p. ground (arith, s.ports p);
  once = λ id. ground (arith, s.once id);
  nodes = ground (arith, s.nodes);
  pending = ground (arith, s.pending);
}

-- A port that was taken out of the free ones is recorded at one node.
pub set_port-IsSound :
    (m : MasterNode) (addr : String) (p : ℕ)
    → IsSound m
    → (allocate_port m).0 ≡ some p
    → IsSound (modify_node addr (set_port p) (allocate_port m).1)
unfolding allocate_port modify_node
set_port-IsSound m addr p s e = record {
  ports = λ q. ground (arith, s.ports q, held-set_port-le q addr p m.connected_nodes);
  once = λ id.
      ground
        (arith, s.once id, runs-and_modify_same id addr (set_port p) m.connected_nodes (λ n. refl));
  nodes = ground (arith, and_modify-IsTable addr (set_port p) m.connected_nodes s.nodes);
  pending = ground (arith, s.pending);
}

module _ {m : MasterNode} (addr : String) (s : IsSound m) where
  pub release_port-IsSound : IsSound (release_port addr m)
  unfolding release_port
  release_port-IsSound = record {
    ports = λ p. omega (
      arith,
      s.ports p,
      held-without_port p addr m.connected_nodes,
      count-give_back_port p (port_of (Dict.get addr m.connected_nodes)) m.available_ports,
    );
    once = λ id.
        omega (
          arith,
          s.once id,
          runs-and_modify_same id addr without_port m.connected_nodes (λ n. refl),
        );
    nodes = and_modify-IsTable addr without_port m.connected_nodes s.nodes;
    pending = s.pending;
  }

  pub accept_node-IsSound : (now : ℕ) → IsSound (accept_node addr now m)
  unfolding accept_node
  accept_node-IsSound now = record {
    ports = λ p. omega (arith, s.ports p, held-insert_new-le p addr now addr m.connected_nodes);
    once = λ id. omega (arith, s.once id, runs-insert_new-le id addr now addr m.connected_nodes);
    nodes = insert-IsTable addr (new_node addr now) m.connected_nodes s.nodes;
    pending = s.pending;
  }

  pub remove_node-IsSound : IsSound (remove_node addr m)
  unfolding remove_node
  remove_node-IsSound = record {
    ports = λ p. omega (arith, s.ports p, held-remove-le p addr m.connected_nodes);
    once = λ id. omega (arith, s.once id, runs-remove-le id addr m.connected_nodes);
    nodes = remove-IsTable addr m.connected_nodes s.nodes;
    pending = s.pending;
  }

  -- A change of a node that leaves its port and its tasks alone.
  pub modify_node-IsSound :
      (f : NodeInfo → NodeInfo)
      → ((n : NodeInfo) → (f n).port ≡ n.port)
      → ((n : NodeInfo) → (f n).active_tasks ≡ n.active_tasks)
      → IsSound (modify_node addr f m)
  unfolding modify_node
  modify_node-IsSound f same_port same_tasks = record {
    ports =
        λ p. omega (arith, s.ports p, held-and_modify_same p addr f m.connected_nodes same_port);
    once =
        λ id. omega (arith, s.once id, runs-and_modify_same id addr f m.connected_nodes same_tasks);
    nodes = and_modify-IsTable addr f m.connected_nodes s.nodes;
    pending = s.pending;
  }

  pub complete-IsSound : (id : String) (result : TaskResult) → IsSound (complete addr id result m)
  unfolding complete
  complete-IsSound id result = record {
    ports = λ p. omega (
      arith,
      s.ports p,
      held-and_modify_same p addr (remove_active id) m.connected_nodes (λ n. refl),
    );
    once = λ j. omega (arith, s.once j, runs-remove_active-le j addr id m.connected_nodes);
    nodes = and_modify-IsTable addr (remove_active id) m.connected_nodes s.nodes;
    pending = remove-IsTable id m.pending_tasks s.pending;
  }

pub submit-IsSound :
    {m : MasterNode} (id : String) (task : Task) → IsSound m → IsSound (submit id task m)
unfolding submit
submit-IsSound {m} id task s = record {
  ports = s.ports;
  once = s.once;
  nodes = s.nodes;
  pending = insert-IsTable id _ m.pending_tasks s.pending;
}

module _ (addr : String) (role : NodeRole) (m : MasterNode) (id : String) (p : PendingTask)
    (found : eligible_task addr role m ≡ some (id, p)) (s : IsSound m) where
  -- What was found is active nowhere, so it runs at one node after it is assigned.
  taken-IsSound : IsSound (taken addr id p m)
  unfolding assign
  taken-IsSound = record {
    ports = λ q. omega (
      arith,
      s.ports q,
      held-and_modify_same q addr (add_active id p.task) m.connected_nodes (λ n. refl),
    );
    once = λ j. ground (
      arith,
      s.once j,
      eq_iff id j,
      runs-add_active-le j addr id p.task m.connected_nodes,
      runs_inactive id m.connected_nodes (not-is_active_found addr role m id p found),
    );
    nodes = and_modify-IsTable addr (add_active id p.task) m.connected_nodes s.nodes;
    pending = remove-IsTable id m.pending_tasks s.pending;
  }

  returned-IsSound : IsSound (returned addr id p m)
  unfolding unassign
  returned-IsSound = record {
    ports = λ q. omega (
      arith,
      t.ports q,
      held-and_modify_same q addr (remove_active id) (taken addr id p m).connected_nodes
          (λ n. refl),
    );
    once = λ j.
        omega
          (arith, t.once j, runs-remove_active-le j addr id (taken addr id p m).connected_nodes);
    nodes = and_modify-IsTable addr (remove_active id) (taken addr id p m).connected_nodes t.nodes;
    pending = insert-IsTable id p (taken addr id p m).pending_tasks t.pending;
  }
    where
      t : IsSound (taken addr id p m)
      t = taken-IsSound

pub send_pending_tasks-IsSound :
    (wire : Wire) (addr : String) (c : Connection)
    → IsSound c.master
    → IsSound (send_pending_tasks wire addr c).1.master
unfolding send_pending_tasks
send_pending_tasks-IsSound wire addr c s =
    elim (Option-cases (worker_role (Dict.get addr c.master.connected_nodes))) [
      | inl e ↦ rw (e, send_pending_tasks) s
      | inr (role, e) ↦
          rw (e, send_pending_tasks)
            (send_loop_inv wire addr role (λ c. IsSound c.master)
              (λ c id p r s found. taken-IsSound addr role c.master id p found s)
              (λ c id p s found. returned-IsSound addr role c.master id p found s)
              (enough_fuel c.master) c s)
    ]

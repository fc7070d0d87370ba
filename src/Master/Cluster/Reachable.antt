-- ===== src/Master/Cluster/Reachable.antt =====
-- What holds of every master that can be reached from the start, in any interleaving.
use cpcluster.Prelude.{ℕ, zero, suc, ◌+◌, ◌-◌, ◌≤◌, ◌<◌, ◌≡◌, refl, count, arith}
use cpcluster.Prelude.Dict.Table.{insert-IsTable, remove-IsTable}
use cpcluster.Common.Config.{Config}
use cpcluster.Common.Wire.{Wire}
use cpcluster.Master.State.{MasterNode}
use cpcluster.Master.Startup.{range, port_range, initial}
use cpcluster.Master.Shell.{submit_for, add_task, take_result, give_up}
use cpcluster.Master.Cluster.{
  Step, accepts, handles, dispatches, leaves, cleans, shell_submits, shell_adds, shell_takes,
  shell_gives_up, Steps, with_socket,
}
use cpcluster.Master.Invariant.{IsSound, held, runs}
use cpcluster.Master.Invariant.Steps.{
  accept_node-IsSound, remove_node-IsSound, send_pending_tasks-IsSound,
}
use cpcluster.Master.Invariant.Sessions.{handle_message-IsSound, cleanup_dead_nodes-IsSound}

count_below : (p lo n : ℕ) → p < lo → count p (range lo n) ≡ 0
unfolding range
count_below p lo zero h = refl
count_below p lo (suc n) h = ground (arith, h, count_below p (suc lo) n (omega (arith, h)))

count-range-le : (p lo n : ℕ) → count p (range lo n) ≤ 1
unfolding range
count-range-le p lo zero = omega arith
count-range-le p lo (suc n) = ground (arith, count-range-le p (suc lo) n, count_below p (suc lo) n)

pub initial-IsSound : (config : Config) → IsSound (initial config)
unfolding initial port_range held runs
initial-IsSound config = record {
  ports =
      λ p. omega (arith, count-range-le p config.min_port (config.max_port + 1 - config.min_port));
  once = λ id. omega arith;
  nodes = tt;
  pending = tt;
}

module _ (wire : Wire) where
  pub Step-IsSound : {a b : MasterNode} → Step wire a b → IsSound a → IsSound b
  unfolding submit_for add_task take_result give_up
  Step-IsSound (accepts addr now m) s = accept_node-IsSound addr s now
  Step-IsSound (handles addr now msg m socket) s =
      handle_message-IsSound wire addr now msg (with_socket wire m socket) s
  Step-IsSound (dispatches addr m socket) s =
      send_pending_tasks-IsSound wire addr (with_socket wire m socket) s
  Step-IsSound (leaves addr m) s = remove_node-IsSound addr s
  Step-IsSound (cleans now m) s = cleanup_dead_nodes-IsSound now m s
  Step-IsSound (shell_submits id target task m) s = record {
    ports = s.ports;
    once = s.once;
    nodes = s.nodes;
    pending = insert-IsTable id _ m.pending_tasks s.pending;
  }
  Step-IsSound (shell_adds id task m) s = record {
    ports = s.ports;
    once = s.once;
    nodes = s.nodes;
    pending = insert-IsTable id _ m.pending_tasks s.pending;
  }
  Step-IsSound (shell_takes id m) s = record {
    ports = s.ports;
    once = s.once;
    nodes = s.nodes;
    pending = s.pending;
  }
  Step-IsSound (shell_gives_up id m) s = record {
    ports = s.ports;
    once = s.once;
    nodes = s.nodes;
    pending = remove-IsTable id m.pending_tasks s.pending;
  }

-- ===== src/Master/Session/Leave.antt =====
-- How a client leaves: by `Disconnect`, or by a connection that breaks.
use cpcluster.Prelude.{
  ℕ, ◌+◌, ◌≤◌, ◌≡◌, refl, String, false, none, some, [], ◌∷◌, arith, ok, eq_refl, count,
}
use cpcluster.Prelude.Dict
use cpcluster.Prelude.Dict.{Dict, get, contains_key, get-remove, get-and_modify}
use cpcluster.Common.Protocol.{Task, disconnect}
use cpcluster.Common.Wire.{Wire}
use cpcluster.Master.State.{NodeInfo}
use cpcluster.Master.Connection.{Connection}
use cpcluster.Master.Ports.{release_port, without_port, port_of}
use cpcluster.Master.Dispatch.{is_active}
use cpcluster.Master.Cleanup.Leak.{held-remove_port}
use cpcluster.Master.Session.{remove_node, handle_message, serve_rest, stop}
use cpcluster.Master.Invariant.{one, has_port, held, runs, IsSound}
use cpcluster.Master.Invariant.Measures.{
  runs-remove-le, held-remove-le, held-without_port, count-give_back_port,
}

-- `Disconnect` removes the node, makes its port free again, exactly once, and ends the session.
pub disconnect_releases_port :
    (wire : Wire) (addr : String) (now : ℕ) (c : Connection) (info : NodeInfo) (p : ℕ)
    → IsSound c.master
    → get addr c.master.connected_nodes ≡ some info
    → info.port ≡ some p
    → let after = handle_message wire addr now disconnect c in
      (after.0 ≡ ok stop)
      × (get addr after.1.master.connected_nodes ≡ none)
      × (count p after.1.master.available_ports ≡ 1)
      × (held p after.1.master.connected_nodes ≡ 0)
unfolding handle_message release_port remove_node
disconnect_releases_port wire addr now c info p s h e =
    let m = c.master in
    let port : port_of (get addr m.connected_nodes) ≡ some p = rw h e in
    let here : one (has_port p (port_of (get addr m.connected_nodes))) ≡ 1 =
      rw port (ground arith) in
    (
      refl,
      ground (
        arith,
        eq_refl addr,
        get-remove addr addr (Dict.and_modify addr without_port m.connected_nodes),
      ),
      omega (
        arith,
        here,
        s.ports p,
        count-give_back_port p (port_of (get addr m.connected_nodes)) m.available_ports,
        held-without_port p addr m.connected_nodes,
      ),
      omega (
        arith,
        here,
        s.ports p,
        held-without_port p addr m.connected_nodes,
        held-remove-le p addr (Dict.and_modify addr without_port m.connected_nodes),
      ),
    )

runs-remove_active :
    (id k : String) (nodes : Dict NodeInfo) (n : NodeInfo) (task : Task)
    → get k nodes ≡ some n
    → get id n.active_tasks ≡ some task
    → runs id (Dict.remove k nodes) + 1 ≤ runs id nodes
unfolding runs Dict.remove get
runs-remove_active id k [] n task h e = ground arith
runs-remove_active id k ((a, n') ∷ nodes) n task h e =
    ground (arith, runs-remove_active id k nodes n task, runs-remove-le id k nodes)

not-is_active_of_runs :
    (id : String) (nodes : Dict NodeInfo) → runs id nodes ≡ 0 → is_active id nodes ≡ false
unfolding runs
not-is_active_of_runs id [] h = refl
not-is_active_of_runs id ((a, n) ∷ nodes) h = ground (arith, not-is_active_of_runs id nodes)

-- When a read fails, as at a connection that breaks, the node is removed with all that it had: its
-- port is then neither free nor held, and a task that it was running is neither pending nor active
-- nor completed.
pub broken_connection_loses :
    (wire : Wire) (addr : String) (c : Connection) (info : NodeInfo) (p : ℕ) (id : String)
    (task : Task)
    → IsSound c.master
    → get addr c.master.connected_nodes ≡ some info
    → info.port ≡ some p
    → get id info.active_tasks ≡ some task
    → get id c.master.pending_tasks ≡ none
    → get id c.master.completed_tasks ≡ none
    → let after = (serve_rest wire addr [] c).1.master in
      (count p after.available_ports + held p after.connected_nodes ≡ 0)
      × (contains_key id after.pending_tasks ≡ false)
      × (is_active id after.connected_nodes ≡ false)
      × (contains_key id after.completed_tasks ≡ false)
unfolding serve_rest remove_node
broken_connection_loses wire addr c info p id task s h e a pend comp =
    let m = c.master in
    let here : one (has_port p info.port) ≡ 1 = ground arith in
    (
      omega (arith, here, s.ports p, held-remove_port p addr m.connected_nodes info h),
      rw pend,
      not-is_active_of_runs id (Dict.remove addr m.connected_nodes)
          (omega (arith, s.once id, runs-remove_active id addr m.connected_nodes info task h a)),
      rw comp,
    )

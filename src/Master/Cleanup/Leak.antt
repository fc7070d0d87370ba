-- ===== src/Master/Cleanup/Leak.antt =====
-- `cleanup_dead_nodes` removes a node from the table before it calls `release_port`, which then finds
-- no port to give back.
use cpcluster.Prelude.{
  ℕ, ◌+◌, ◌≤◌, ◌≡◌, refl, ◌∙◌, String, true, some, List, [], ◌∷◌, arith, str_eq, eq_iff, eq_refl,
  count, Bool-cases, inl, inr,
}
use cpcluster.Prelude.Dict
use cpcluster.Prelude.Dict.{Dict, get, contains_key, get-insert, get-remove, get-and_modify}
use cpcluster.Master.State.{NodeInfo, MasterNode}
use cpcluster.Master.Ports.{release_port}
use cpcluster.Master.Cleanup.{
  timeout_of, is_stale, stale_nodes, remove_dead, remove_all_dead, cleanup_dead_nodes,
}
use cpcluster.Master.Cleanup.Requeue.{among, among-stale_nodes, get-remove_dead}
use cpcluster.Master.Invariant.{one, has_port, held, IsSound}
use cpcluster.Master.Invariant.Measures.{held-remove-le, held-without_port}

-- A node that is removed takes its port out of those held.
pub held-remove_port :
    (p : ℕ) (k : String) (nodes : Dict NodeInfo) (n : NodeInfo)
    → get k nodes ≡ some n
    → held p (Dict.remove k nodes) + one (has_port p n.port) ≤ held p nodes
unfolding held Dict.remove get
held-remove_port p k [] n h = ground arith
held-remove_port p k ((a, n') ∷ nodes) n h =
    ground (arith, held-remove_port p k nodes n, held-remove-le p k nodes)

ports-remove_dead :
    (a : String) (m : MasterNode) → (remove_dead a m).available_ports ≡ m.available_ports
unfolding remove_dead release_port
ports-remove_dead a m = ground (arith, eq_refl a, get-remove a a m.connected_nodes)

held-remove_dead-le :
    (p : ℕ) (a : String) (m : MasterNode)
    → held p (remove_dead a m).connected_nodes ≤ held p (Dict.remove a m.connected_nodes)
unfolding remove_dead release_port
held-remove_dead-le p a m = omega (arith, held-without_port p a (Dict.remove a m.connected_nodes))

-- The ports that are free stay the same: none comes back.
ports-remove_all_dead :
    (stale : List String) (m : MasterNode)
    → (remove_all_dead stale m).available_ports ≡ m.available_ports
unfolding remove_all_dead
ports-remove_all_dead [] m = refl
ports-remove_all_dead (a ∷ stale) m =
    ports-remove_all_dead stale (remove_dead a m) ∙ ports-remove_dead a m

held-remove_all_dead-le :
    (p : ℕ) (stale : List String) (m : MasterNode)
    → held p (remove_all_dead stale m).connected_nodes ≤ held p m.connected_nodes
unfolding remove_all_dead
held-remove_all_dead-le p [] m = omega arith
held-remove_all_dead-le p (a ∷ stale) m = omega (
  arith,
  held-remove_all_dead-le p stale (remove_dead a m),
  held-remove_dead-le p a m,
  held-remove-le p a m.connected_nodes,
)

held-removed :
    (p : ℕ) (stale : List String) (addr : String) (m : MasterNode) (info : NodeInfo)
    → get addr m.connected_nodes ≡ some info
    → info.port ≡ some p
    → among addr stale ≡ true
    → held p (remove_all_dead stale m).connected_nodes + 1 ≤ held p m.connected_nodes
unfolding remove_all_dead
held-removed p [] addr m info h e s = ground arith
held-removed p (a ∷ stale) addr m info h e s = elim (Bool-cases (str_eq a addr)) [
  | inl same ↦
      let h' : get a m.connected_nodes ≡ some info = rw ((eq_iff a addr).0 same) h in
      let here : one (has_port p info.port) ≡ 1 = ground arith in
      omega (
        arith,
        here,
        held-remove_all_dead-le p stale (remove_dead a m),
        held-remove_dead-le p a m,
        held-remove_port p a m.connected_nodes info h',
      )
  | inr other ↦
      let later : among addr stale ≡ true = ground arith in
      let h' : get addr (remove_dead a m).connected_nodes ≡ some info =
        ground (arith, get-remove_dead a addr m) in
      omega (
        arith,
        held-removed p stale addr (remove_dead a m) info h' e later,
        held-remove_dead-le p a m,
        held-remove-le p a m.connected_nodes,
      )
]

-- The port of every node that is removed is lost: it is then neither free nor held by any node.
pub cleanup_dead_nodes_loses_port :
    (now : ℕ) (m : MasterNode) (addr : String) (info : NodeInfo) (p : ℕ)
    → IsSound m
    → get addr m.connected_nodes ≡ some info
    → is_stale (timeout_of m) now info ≡ true
    → info.port ≡ some p
    → let after = cleanup_dead_nodes now m in
      count p after.available_ports + held p after.connected_nodes ≡ 0
unfolding cleanup_dead_nodes
cleanup_dead_nodes_loses_port now m addr info p s h old e =
    let stale = stale_nodes (timeout_of m) now m.connected_nodes in
    let gone : among addr stale ≡ true =
      among-stale_nodes (timeout_of m) now addr m.connected_nodes s.nodes ∙ rw h old in
    rw (ports-remove_all_dead stale m)
      (omega (arith, s.ports p, held-removed p stale addr m info h e gone))

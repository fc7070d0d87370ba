-- ===== src/Master/Cleanup/Requeue.antt =====
-- Which nodes `cleanup_dead_nodes` removes, and what becomes of their tasks.
use cpcluster.Prelude.{
  ℕ, ◌≡◌, refl, String, Bool, false, Option, none, some, List, [], ◌∷◌, any, arith, if◌then◌else◌,
  str_eq, eq_iff, ◌||◌,
}
use cpcluster.Prelude.Dict
use cpcluster.Prelude.Dict.{Dict, get, contains_key, get-insert, get-remove, get-and_modify}
use cpcluster.Prelude.Dict.Table.{IsTable}
use cpcluster.Common.Protocol.{Task}
use cpcluster.Master.State.{NodeInfo, PendingTask, MasterNode}
use cpcluster.Master.Ports.{release_port, without_port}
use cpcluster.Master.Cleanup.{
  timeout_of, is_stale, stale_nodes, requeue, remove_dead, remove_all_dead, cleanup_dead_nodes,
}

abbrev pub among : String → List String → Bool
among addr = any (λ a. str_eq a addr)

-- Whether a node that may be missing is stale.
abbrev pub stale_opt : ℕ → ℕ → Option NodeInfo → Bool
stale_opt timeout now none = false
stale_opt timeout now (some info) = is_stale timeout now info

among-stale_none :
    (timeout now : ℕ) (addr : String) (nodes : Dict NodeInfo)
    → get addr nodes ≡ none
    → among addr (stale_nodes timeout now nodes) ≡ false
unfolding stale_nodes get
among-stale_none timeout now addr [] h = refl
among-stale_none timeout now addr ((a, n) ∷ nodes) h =
    ground (arith, among-stale_none timeout now addr nodes)

-- The first loop finds exactly the stale nodes.
pub among-stale_nodes :
    (timeout now : ℕ) (addr : String) (nodes : Dict NodeInfo)
    → IsTable nodes
    → among addr (stale_nodes timeout now nodes) ≡ stale_opt timeout now (get addr nodes)
unfolding stale_nodes get
among-stale_nodes timeout now addr [] t = refl
among-stale_nodes timeout now addr ((a, n) ∷ nodes) t = ground (
  arith,
  eq_iff a addr,
  among-stale_none timeout now a nodes t.0,
  among-stale_nodes timeout now addr nodes t.1,
)

pub get-remove_dead :
    (a addr : String) (m : MasterNode)
    → get addr (remove_dead a m).connected_nodes
      ≡ (if str_eq a addr then none else get addr m.connected_nodes)
unfolding remove_dead release_port
get-remove_dead a addr m = ground (
  arith,
  get-and_modify a addr without_port (Dict.remove a m.connected_nodes),
  get-remove a addr m.connected_nodes,
)

pub get-remove_all_dead :
    (stale : List String) (addr : String) (m : MasterNode)
    → get addr (remove_all_dead stale m).connected_nodes
      ≡ (if among addr stale then none else get addr m.connected_nodes)
unfolding remove_all_dead
get-remove_all_dead [] addr m = refl
get-remove_all_dead (a ∷ stale) addr m =
    ground (arith, get-remove_all_dead stale addr (remove_dead a m), get-remove_dead a addr m)

-- Exactly the nodes whose last heartbeat is older than twice the failover timeout are removed, and
-- the others stay as they are.
pub get-cleanup_dead_nodes :
    (now : ℕ) (m : MasterNode) (addr : String)
    → IsTable m.connected_nodes
    → get addr (cleanup_dead_nodes now m).connected_nodes ≡ (
        if stale_opt (timeout_of m) now (get addr m.connected_nodes)
        then none
        else get addr m.connected_nodes)
unfolding cleanup_dead_nodes
get-cleanup_dead_nodes now m addr t =
    rw (← among-stale_nodes (timeout_of m) now addr m.connected_nodes t)
      (get-remove_all_dead (stale_nodes (timeout_of m) now m.connected_nodes) addr m)

pub contains_key-requeue :
    (id : String) (active : Dict Task) (pending : Dict PendingTask)
    → contains_key id (requeue active pending) ≡ (contains_key id active || contains_key id pending)
unfolding requeue get
contains_key-requeue id [] pending = refl
contains_key-requeue id ((j, task) ∷ active) pending = ground (
  arith,
  contains_key-requeue id active (Dict.insert j (record { task = task; target = none }) pending),
  get-insert j id (record { task = task; target = none }) pending,
)

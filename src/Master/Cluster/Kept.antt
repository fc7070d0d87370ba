-- ===== src/Master/Cluster/Kept.antt =====
-- What can become of a task: which steps of the cluster can lose it.
use cpcluster.Prelude.{
  ℕ, ◌+◌, ◌≤◌, ◌≡◌, ◌≢◌, refl, String, Bool, Option, none, some, [], ◌∷◌, arith, eq_iff, eq_refl,
}
use cpcluster.Prelude.Dict
use cpcluster.Prelude.Dict.{Dict, get, get-insert, get-remove, get-and_modify, contains_key}
use cpcluster.Prelude.Dict.Table.{IsTable}
use cpcluster.Common.Protocol.{Task}
use cpcluster.Master.State.{NodeInfo, MasterNode}
use cpcluster.Master.Dispatch.{add_active, remove_active}
use cpcluster.Master.Invariant.{one, runs}

abbrev pub active_of : Option NodeInfo → Dict Task
active_of none = []
active_of (some n) = n.active_tasks

-- Whether the task is active at the node.
abbrev pub runs_at : String → String → MasterNode → Bool
runs_at addr id m = contains_key id (active_of (get addr m.connected_nodes))

-- In how many places the task is: pending, active at nodes, completed.
abbrev pub places : String → MasterNode → ℕ
places id m =
    one (contains_key id m.pending_tasks)
    + runs id m.connected_nodes
    + one (contains_key id m.completed_tasks)

module _ (id k : String) where
  pub runs-remove-ge :
      (nodes : Dict NodeInfo)
      → IsTable nodes
      → runs id nodes
        ≤ runs id (Dict.remove k nodes) + one (contains_key id (active_of (get k nodes)))
  unfolding runs Dict.remove get
  runs-remove-ge [] t = omega arith
  runs-remove-ge ((a, n) ∷ nodes) t = ground (arith, eq_iff a k, runs-remove-ge nodes t.1)

  pub runs-insert-ge :
      (n' : NodeInfo) (nodes : Dict NodeInfo)
      → runs id nodes
        ≤ runs id (Dict.insert k n' nodes) + one (contains_key id (active_of (get k nodes)))
  unfolding runs Dict.insert get
  runs-insert-ge n' [] = omega arith
  runs-insert-ge n' ((a, n) ∷ nodes) = ground (arith, eq_iff a k, runs-insert-ge n' nodes)

  pub runs-remove_active-other :
      (id' : String) (nodes : Dict NodeInfo)
      → id' ≢ id
      → runs id (Dict.and_modify k (remove_active id') nodes) ≡ runs id nodes
  unfolding runs Dict.and_modify
  runs-remove_active-other id' [] h = refl
  runs-remove_active-other id' ((a, n) ∷ nodes) h = ground (
    arith,
    h,
    eq_iff id' id,
    get-remove id' id n.active_tasks,
    runs-remove_active-other id' nodes h,
  )

  pub runs-add_active-ge :
      (id' : String) (task : Task) (nodes : Dict NodeInfo)
      → runs id nodes ≤ runs id (Dict.and_modify k (add_active id' task) nodes)
  unfolding runs Dict.and_modify
  runs-add_active-ge id' task [] = omega arith
  runs-add_active-ge id' task ((a, n) ∷ nodes) =
      ground (arith, get-insert id' id task n.active_tasks, runs-add_active-ge id' task nodes)

  pub runs-add_active_self :
      (task : Task) (nodes : Dict NodeInfo) (n : NodeInfo)
      → get k nodes ≡ some n
      → 1 ≤ runs id (Dict.and_modify k (add_active id task) nodes)
  unfolding runs Dict.and_modify get
  runs-add_active_self task [] n h = ground (arith, h)
  runs-add_active_self task ((a, n') ∷ nodes) n h = ground (
    arith,
    h,
    eq_refl id,
    get-insert id id task n'.active_tasks,
    runs-add_active_self task nodes n,
  )

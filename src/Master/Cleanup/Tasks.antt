-- ===== src/Master/Cleanup/Tasks.antt =====
-- What `cleanup_dead_nodes` makes of the tasks: which are pending afterwards, and for whom.
use cpcluster.Prelude.{
  ℕ, ◌≡◌, ◌≢◌, ap, refl, sym, ◌∙◌, String, true, false, none, some, List, [], ◌∷◌, arith, str_eq,
  eq_iff, Bool-cases, Option-cases, inl, inr,
}
use cpcluster.Prelude.Dict
use cpcluster.Prelude.Dict.{Dict, get, contains_key, get-insert}
use cpcluster.Prelude.Dict.Table.{IsTable}
use cpcluster.Common.Protocol.{Task}
use cpcluster.Master.State.{NodeInfo, PendingTask, MasterNode}
use cpcluster.Master.Ports.{release_port}
use cpcluster.Master.Cleanup.{
  timeout_of, is_stale, stale_nodes, requeue, requeue_tasks_of, remove_dead, remove_all_dead,
  cleanup_dead_nodes,
}
use cpcluster.Master.Cleanup.Requeue.{among, among-stale_nodes, get-remove_dead}

-- The entry of a task that is queued again: the same task, for any node.
abbrev pub queued_again : Task → PendingTask
queued_again task = record { task = task; target = none }

-- The task is active at no node, or at no other than `addr`.
abbrev pub IsIdle : String → MasterNode → Type 0
IsIdle id m =
    (other : String) (n : NodeInfo)
    → get other m.connected_nodes ≡ some n
    → get id n.active_tasks ≡ none

abbrev pub OnlyAt : String → String → MasterNode → Type 0
OnlyAt addr id m =
    (other : String) (n : NodeInfo)
    → other ≢ addr
    → get other m.connected_nodes ≡ some n
    → get id n.active_tasks ≡ none

get-requeue_absent :
    (id : String) (active : Dict Task) (pending : Dict PendingTask)
    → get id active ≡ none
    → get id (requeue active pending) ≡ get id pending
unfolding requeue get
get-requeue_absent id [] pending h = refl
get-requeue_absent id ((j, task) ∷ active) pending h = ground (
  arith,
  h,
  get-requeue_absent id active (Dict.insert j (queued_again task) pending),
  get-insert j id (queued_again task) pending,
)

get-requeue :
    (id : String) (task : Task) (active : Dict Task) (pending : Dict PendingTask)
    → IsTable active
    → get id active ≡ some task
    → get id (requeue active pending) ≡ some (queued_again task)
unfolding requeue get
get-requeue id task [] pending t h = ground (arith, h)
get-requeue id task ((j, other) ∷ active) pending t h = ground (
  arith,
  h,
  t.0,
  eq_iff j id,
  get-requeue_absent id active (Dict.insert j (queued_again other) pending),
  get-requeue id task active (Dict.insert j (queued_again other) pending) t.1,
  get-insert j id (queued_again other) pending,
)

get-pending-remove_dead :
    (addr id : String) (m : MasterNode)
    → get id (remove_dead addr m).pending_tasks
      ≡ get id (requeue_tasks_of (get addr m.connected_nodes) m.pending_tasks)
unfolding remove_dead release_port
get-pending-remove_dead addr id m = refl

-- A node that is left was there before, as it is.
left_before :
    (addr other : String) (n : NodeInfo) (m : MasterNode)
    → get other (remove_dead addr m).connected_nodes ≡ some n
    → (str_eq addr other ≡ false) × (get other m.connected_nodes ≡ some n)
left_before addr other n m h = ground (arith, h, get-remove_dead addr other m)

remove_dead-IsIdle :
    (addr id : String) (m : MasterNode) → IsIdle id m → IsIdle id (remove_dead addr m)
remove_dead-IsIdle addr id m idle other n h = idle other n (left_before addr other n m h).1

pending-remove_dead_other :
    (addr id : String) (m : MasterNode)
    → ((n : NodeInfo) → get addr m.connected_nodes ≡ some n → get id n.active_tasks ≡ none)
    → get id (remove_dead addr m).pending_tasks ≡ get id m.pending_tasks
pending-remove_dead_other addr id m idle =
    get-pending-remove_dead addr id m ∙ (elim (Option-cases (get addr m.connected_nodes)) [
      | inl e ↦ rw e refl
      | inr (n, e) ↦ rw e (get-requeue_absent id n.active_tasks m.pending_tasks (idle n e))
    ])

pending-remove_all_dead_idle :
    (stale : List String) (id : String) (m : MasterNode)
    → IsIdle id m
    → get id (remove_all_dead stale m).pending_tasks ≡ get id m.pending_tasks
unfolding remove_all_dead
pending-remove_all_dead_idle [] id m idle = refl
pending-remove_all_dead_idle (a ∷ stale) id m idle =
    pending-remove_all_dead_idle stale id (remove_dead a m) (remove_dead-IsIdle a id m idle)
    ∙ pending-remove_dead_other a id m (idle a)

removed_here :
    (stale : List String) (a id : String) (info : NodeInfo) (task : Task) (m : MasterNode)
    → get a m.connected_nodes ≡ some info
    → IsTable info.active_tasks
    → get id info.active_tasks ≡ some task
    → OnlyAt a id m
    → get id (remove_all_dead stale (remove_dead a m)).pending_tasks ≡ some (queued_again task)
removed_here stale a id info task m h t e only =
    let idle : IsIdle id (remove_dead a m) = λ other n q.
      let before = left_before a other n m q in
      only other n (λ r. ground (arith, r, before.0, eq_iff a other)) before.1 in
    pending-remove_all_dead_idle stale id (remove_dead a m) idle
    ∙ (get-pending-remove_dead a id m
        ∙ rw h (get-requeue id task info.active_tasks m.pending_tasks t e))

-- Once its node is removed, the task is pending, and active nowhere.
pending-remove_all_dead :
    (stale : List String) (addr id : String) (info : NodeInfo) (task : Task) (m : MasterNode)
    → get addr m.connected_nodes ≡ some info
    → IsTable info.active_tasks
    → get id info.active_tasks ≡ some task
    → OnlyAt addr id m
    → among addr stale ≡ true
    → get id (remove_all_dead stale m).pending_tasks ≡ some (queued_again task)
unfolding remove_all_dead
pending-remove_all_dead [] addr id info task m h t e only s = ground (arith, s)
pending-remove_all_dead (a ∷ stale) addr id info task m h t e only s =
    elim (Bool-cases (str_eq a addr)) [
      | inl same ↦
          let q : a ≡ addr = (eq_iff a addr).0 same in
          removed_here stale a id info task m (ap (λ x. get x m.connected_nodes) q ∙ h) t e
            (λ o n ne. only o n (λ r. ne (r ∙ sym q)))
      | inr other ↦
          pending-remove_all_dead stale addr id info task (remove_dead a m)
            (get-remove_dead a addr m ∙ rw other h) t e
            (λ o n ne q. only o n ne (left_before a o n m q).1) (ground (arith, s, other))
    ]

-- A task that is active at a node that is removed, and at no other, is pending afterwards as it was, and
-- for any node.
pub cleanup_dead_nodes_requeues :
    (now : ℕ) (m : MasterNode) (addr id : String) (info : NodeInfo) (task : Task)
    → IsTable m.connected_nodes
    → get addr m.connected_nodes ≡ some info
    → is_stale (timeout_of m) now info ≡ true
    → IsTable info.active_tasks
    → get id info.active_tasks ≡ some task
    → OnlyAt addr id m
    → get id (cleanup_dead_nodes now m).pending_tasks ≡ some (queued_again task)
unfolding cleanup_dead_nodes
cleanup_dead_nodes_requeues now m addr id info task nodes h old t e only =
    pending-remove_all_dead (stale_nodes (timeout_of m) now m.connected_nodes) addr id info task m h
      t e only (among-stale_nodes (timeout_of m) now addr m.connected_nodes nodes ∙ rw h old)

-- What is said in the table of pending tasks of a task that is active nowhere stays as it is.
pub cleanup_dead_nodes_keeps :
    (now : ℕ) (m : MasterNode) (id : String)
    → IsIdle id m
    → get id (cleanup_dead_nodes now m).pending_tasks ≡ get id m.pending_tasks
unfolding cleanup_dead_nodes
cleanup_dead_nodes_keeps now m id idle =
    pending-remove_all_dead_idle (stale_nodes (timeout_of m) now m.connected_nodes) id m idle

-- ===== src/Master/Locks/Deadlock.antt =====
-- `save_state` takes the nodes before the pending tasks, and the search of `send_pending_tasks` the
-- pending tasks before the nodes.
use cpcluster.Prelude.{ℕ, false, none, some, [], ◌∷◌, ◌≡◌, ◌≢◌}
use cpcluster.Master.Locks.{
  Lock, connected_nodes, available_ports, pending_tasks, completed_tasks, saves, searches, Locks,
  begin, acquire,
}

-- The task `a` saves and has the nodes, the task `b` searches and has the pending tasks.
pub record IsDeadlocked (a b : ℕ) (s : Locks) : Type 0 where
  pub nodes : s.owner connected_nodes ≡ some a
  pub pending : s.owner pending_tasks ≡ some b
  pub saver : s.waits a ≡ some (pending_tasks ∷ completed_tasks ∷ [])
  pub searcher : s.waits b ≡ some (connected_nodes ∷ [])
  pub saver_stays : s.limited a ≡ false
  pub searcher_stays : s.limited b ≡ false

module _ (a b : ℕ) (s : Locks) (distinct : a ≢ b) (free : (l : Lock) → s.owner l ≡ none)
    (outside_a : s.waits a ≡ none) (outside_b : s.waits b ≡ none) where
  abbrev begun : Locks
  begun = begin b searches (begin a saves s)

  abbrev deadlock : Locks
  deadlock = acquire b pending_tasks (connected_nodes ∷ []) (
      acquire a available_ports (pending_tasks ∷ completed_tasks ∷ [])
        (acquire a connected_nodes (available_ports ∷ pending_tasks ∷ completed_tasks ∷ []) begun))

-- ===== src/Master/Tests/Locks.antt =====
-- The mutexes of the master at concrete moments.
use cpcluster.Prelude.{some, [], ◌∷◌, ◌≢◌, refl}
use cpcluster.Master.Locks.{
  completed_tasks, connected_nodes, available_ports, pending_tasks, answers, locks_of, has_limit,
  Locks, begin, acquire, Moves, begins, acquires, onward, stay, all_free,
}
use cpcluster.Master.Locks.Answer.{answer_never_complete}

-- The shell has found an answer, and holds the completed tasks.
abbrev answering : Locks
answering =
    acquire 0 completed_tasks
      (connected_nodes ∷ available_ports ∷ pending_tasks ∷ completed_tasks ∷ [])
      (begin 0 answers all_free)

to_answering : Moves all_free answering
unfolding locks_of
to_answering =
    onward (begins 0 answers all_free refl)
      (onward (acquires 0 completed_tasks _ _ refl refl) (stay _))

answer_never_complete_example : answering.waits 0 ≢ some []
unfolding has_limit
answer_never_complete_example = answer_never_complete answering to_answering 0 refl

-- ===== src/Master/Cluster/Lost.antt =====
-- No task is lost but where its node is removed or replaced, or the shell takes it out.
use cpcluster.Prelude.{◌≡◌, sym, subst, String, Bool, false, none, some, arith, str_eq}
use cpcluster.Prelude.Dict.{get-insert, get-remove}
use cpcluster.Common.Protocol.{disconnect}
use cpcluster.Common.Wire.{Wire}
use cpcluster.Master.State.{MasterNode}
use cpcluster.Master.Shell.{submit_for, add_task, take_result, give_up}
use cpcluster.Master.Cluster.{
  Step, accepts, handles, dispatches, leaves, cleans, shell_submits, shell_adds, shell_takes,
  shell_gives_up, Steps, stay, onward, with_socket,
}
use cpcluster.Master.Cluster.Kept.{runs_at}
use cpcluster.Master.Invariant.{IsSound}
use cpcluster.Master.Cluster.Known.{
  IsKnown, accept_node-IsKnown, remove_node-IsKnown, cleanup-IsKnown,
}
use cpcluster.Master.Cluster.Handled.{send_pending_tasks-IsKnown, handle_message-IsKnown}
use cpcluster.Master.Cluster.Reachable.{Step-IsSound}

module _ (id : String) where
  -- The node at `addr` was running the task when its session ended or was replaced, or the shell took
  -- it out.
  unfoldable pub takes_out : {wire : Wire} {a b : MasterNode} → Step wire a b → Bool
  takes_out (accepts addr now m) = runs_at addr id m
  takes_out (handles addr now disconnect m socket) = runs_at addr id m
  takes_out (handles addr now _ m socket) = false
  takes_out (dispatches addr m socket) = false
  takes_out (leaves addr m) = runs_at addr id m
  takes_out (cleans now m) = false
  takes_out (shell_submits i target task m) = false
  takes_out (shell_adds i task m) = false
  takes_out (shell_takes i m) = str_eq i id
  takes_out (shell_gives_up i m) = str_eq i id

  -- A task that is pending, active or completed is so after every step, but where the session of the
  -- node that runs it ends or is replaced, or the shell takes the task out.
  Step-IsKnown :
      (wire : Wire) (a b : MasterNode) (step : Step wire a b)
      → IsSound a
      → takes_out step ≡ false
      → IsKnown id a
      → IsKnown id b
  unfolding takes_out submit_for add_task take_result give_up
  Step-IsKnown wire a b (accepts addr now m) s h k = accept_node-IsKnown id addr now m h k
  Step-IsKnown wire a b (handles addr now msg m socket) s h k =
      handle_message-IsKnown id wire addr now msg (with_socket wire m socket) s.nodes
        (λ e.
          subst
            (λ x.
              takes_out {wire = wire} (handles addr now x m socket) ≡ false
              → runs_at addr id m ≡ false)
            (sym e) (λ q. q) h)
        k
  Step-IsKnown wire a b (dispatches addr m socket) s h k =
      send_pending_tasks-IsKnown id wire addr (with_socket wire m socket) k
  Step-IsKnown wire a b (leaves addr m) s h k = remove_node-IsKnown id addr m s.nodes h k
  Step-IsKnown wire a b (cleans now m) s h k = cleanup-IsKnown id now m s k
  Step-IsKnown wire a b (shell_submits i target task m) s h k =
      ground
        (arith, k, get-insert i id (record { task = task; target = some target }) m.pending_tasks)
  Step-IsKnown wire a b (shell_adds i task m) s h k =
      ground (arith, k, get-insert i id (record { task = task; target = none }) m.pending_tasks)
  Step-IsKnown wire a b (shell_takes i m) s h k =
      ground (arith, k, h, get-remove i id m.completed_tasks)
  Step-IsKnown wire a b (shell_gives_up i m) s h k =
      ground (arith, k, h, get-remove i id m.pending_tasks)

  -- No step takes the task out.
  abbrev pub IsLeftAlone : {wire : Wire} {a b : MasterNode} → Steps wire a b → Type 0
  IsLeftAlone (stay m) = Unit
  IsLeftAlone (onward step steps) = (takes_out step ≡ false) × IsLeftAlone steps

  -- From a master that is sound, a task that is pending, active or completed is so after any order of
  -- handlers of all connections, removals of dead nodes and changes of the shell, each of them as a
  -- whole (none of them between two locks of another), unless the session of a node that runs it ends or is replaced, or the shell takes the task out.
  pub Steps-IsKnown :
      (wire : Wire) (a b : MasterNode) (steps : Steps wire a b)
      → IsSound a
      → IsLeftAlone steps
      → IsKnown id a
      → IsKnown id b
  Steps-IsKnown wire a b (stay m) s h k = k
  Steps-IsKnown wire a b (onward step steps) s h k =
      Steps-IsKnown wire _ b steps (Step-IsSound wire step s) h.1
        (Step-IsKnown wire a _ step s h.0 k)

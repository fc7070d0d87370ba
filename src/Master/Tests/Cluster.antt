-- ===== src/Master/Tests/Cluster.antt =====
-- Runs of the shell and of interleaved handlers, and their theorems at concrete inputs.
use cpcluster.Prelude.{arith, ◌≡◌, refl, none, List, [], ◌∷◌}
use cpcluster.Prelude.Dict
use cpcluster.Common.Protocol.{worker, disk, get_global_ram, stored}
use cpcluster.Master.State.{MasterNode, spawn_save_state}
use cpcluster.Master.Session.{accept_node, remove_node, complete}
use cpcluster.Master.Startup.{range}
use cpcluster.Master.Shell.{
  submit_for, take_result, give_up, wait_result, submit_task_for_node, is_ready, ready_nodes,
}
use cpcluster.Master.Cluster.{Steps, stay, onward, accepts, cleans, leaves}
use cpcluster.Master.Cluster.Known.{IsKnown}
use cpcluster.Master.Cluster.Lost.{takes_out, IsLeftAlone, Steps-IsKnown}
use cpcluster.Master.Cleanup.{
  cleanup_dead_nodes, stale_nodes, remove_all_dead, remove_dead, requeue,
}
use cpcluster.Master.Ports.{release_port}
use cpcluster.Master.Invariant.{runs}
use cpcluster.Master.Tests.{wire, busy, busy-IsSound}

abbrev answers : List (MasterNode → MasterNode)
answers = (λ m. m) ∷ complete "w1" "s" stored ∷ (λ m. m) ∷ []

shell_runs :
    ((submit_task_for_node "s" "w1" get_global_ram answers busy).0 ≡ none)
    × ((submit_task_for_node "s" "w1" get_global_ram ((λ m. m) ∷ []) busy).0 ≡ none)
    × (ready_nodes disk 92000 busy busy.connected_nodes ≡ "d1" ∷ [])
    × (ready_nodes worker 92000 busy busy.connected_nodes ≡ [])
    × (range 7 3 ≡ 7 ∷ 8 ∷ 9 ∷ [])
unfolding submit_task_for_node wait_result take_result give_up submit_for ready_nodes is_ready range
    complete spawn_save_state Dict.get Dict.insert Dict.remove Dict.and_modify
shell_runs = (refl, refl, refl, refl, refl)

-- A client comes, the dead worker that ran `t1` is removed, and the client goes.
abbrev interleaved :
    Steps wire busy (remove_node "c1" (cleanup_dead_nodes 92000 (accept_node "c1" 5 busy)))
interleaved = onward (accepts "c1" 5 busy) (
    onward (cleans 92000 (accept_node "c1" 5 busy))
      (onward (leaves "c1" (cleanup_dead_nodes 92000 (accept_node "c1" 5 busy))) (stay _)))

busy-IsKnown : IsKnown "t1" busy
unfolding runs Dict.get
busy-IsKnown = omega arith

left_alone : IsLeftAlone "t1" interleaved
unfolding takes_out accept_node cleanup_dead_nodes stale_nodes remove_all_dead remove_dead requeue
    release_port spawn_save_state Dict.get Dict.insert Dict.remove Dict.and_modify
left_alone = (refl, (refl, (refl, tt)))

Steps-IsKnown_example :
    IsKnown "t1" (remove_node "c1" (cleanup_dead_nodes 92000 (accept_node "c1" 5 busy)))
Steps-IsKnown_example =
    Steps-IsKnown "t1" wire busy
      (remove_node "c1" (cleanup_dead_nodes 92000 (accept_node "c1" 5 busy))) interleaved
      busy-IsSound left_alone busy-IsKnown

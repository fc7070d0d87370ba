-- ===== src/Master/Cluster/Commands.antt =====
-- A session of the shell goes by the steps of the cluster.
use cpcluster.Prelude.{ℕ, String, Option, List}
use cpcluster.Common.Wire.{Wire}
use cpcluster.Master.State.{MasterNode}
use cpcluster.Master.Shell.Run.{World, Debug, Shell, run_shell}
use cpcluster.Master.Shell.Keeps.{run_shell-Holds}
use cpcluster.Master.Cluster.{
  shell_submits, shell_adds, shell_takes, shell_gives_up, Steps, stay, onward,
}

module _ (wire : Wire) where
  Steps-trans : {a b c : MasterNode} → Steps wire a b → Steps wire b c → Steps wire a c
  Steps-trans (stay m) t = t
  Steps-trans (onward k s) t = onward k (Steps-trans s t)

-- Whatever is typed, and whatever steps the rest of the master takes between two looks of the shell, a
-- session of the shell changes the master by steps of the cluster only.
pub run_shell-Steps :
    (wire : Wire) (world : World) (debug : Debug)
    → ((k : ℕ) (m : MasterNode) → Steps wire m (world.others k m))
    → (input : List (Option String)) (s : Shell)
    → Steps wire s.master (run_shell world debug input s).master
run_shell-Steps wire world debug others_step input s =
    let a = s.master in
    run_shell-Holds world debug (λ m. Steps wire a m)
      (λ k m h. Steps-trans wire h (others_step k m))
      (λ id target t m h. Steps-trans wire h (onward (shell_submits id target t m) (stay _)))
      (λ id t m h. Steps-trans wire h (onward (shell_adds id t m) (stay _)))
      (λ id m h. Steps-trans wire h (onward (shell_takes id m) (stay _)))
      (λ id m h. Steps-trans wire h (onward (shell_gives_up id m) (stay _))) input s (stay a)

-- ===== src/Node/Direct.antt =====
-- CPCluster_node/src/node.rs: the loop of `handle_connection`, on a direct connection that was opened by
-- either side. It shares the open results and the stores with the loop of the node.
pub mod Opening
use cpcluster.Prelude.{
  All, eq_iff, false, String, Option, none, some, List, [], ◌∷◌, ◌≡◌, refl, arith,
}
use cpcluster.Prelude.Dict.{get}
use cpcluster.Common.Protocol.{Bytes, NodeMessage, assign_task}
use cpcluster.Node.Tasks.{execute_node_task}
use cpcluster.Node.Loop.Results.{executed-open, assigns}
use cpcluster.Node.Loop.{Setting, NodeState, Standing, going, left, crashed, on_assign}

module _ (setting : Setting) where
  open setting use {wire}

  -- A frame that assigns no task is dropped.
  unfoldable pub direct_message :
      Option NodeMessage → NodeState setting → Standing × NodeState setting
  direct_message (some (assign_task id task)) s = on_assign setting id task s
  direct_message _ s = (going, s)

  -- The frames that come before a read fails; the link of the state is the direct connection here.
  unfoldable pub serve_direct : List Bytes → NodeState setting → Standing × NodeState setting
  serve_direct [] s = (left, s)
  serve_direct (buf ∷ frames) s = elim (direct_message (wire.from_slice buf) s).0 [
    | going ↦ serve_direct frames (direct_message (wire.from_slice buf) s).1
    | left ↦ (left, (direct_message (wire.from_slice buf) s).1)
    | crashed ↦ (crashed, (direct_message (wire.from_slice buf) s).1)
  ]

  module _ (k : String) where
    direct_message-open :
        (msg : Option NodeMessage) (s : NodeState setting)
        → assigns setting k msg ≡ false
        → get k (direct_message msg s).1.open_tasks ≡ get k s.open_tasks
    unfolding direct_message on_assign
    direct_message-open none s h = refl
    direct_message-open (some (assign_task id task)) s h =
        executed-open setting k id (execute_node_task setting.env task s.worker).0 _
          (λ e. ground (arith, h, e, eq_iff id k))
    direct_message-open (some m) s h = ground (arith, h)

    -- A direct connection whose frames do not assign the task `k` leaves its open result alone.
    pub serve_direct_keeps_open :
        (frames : List Bytes) (s : NodeState setting)
        → All (λ b. assigns setting k (wire.from_slice b) ≡ false) frames
        → get k (serve_direct frames s).1.open_tasks ≡ get k s.open_tasks
    unfolding serve_direct
    serve_direct_keeps_open [] s h = refl
    serve_direct_keeps_open (buf ∷ frames) s h = ground (
      arith,
      direct_message-open (wire.from_slice buf) s h.0,
      serve_direct_keeps_open frames (direct_message (wire.from_slice buf) s).1 h.1,
    )
